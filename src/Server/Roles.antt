-- ===== src/Server/Roles.antt =====
-- What a replica refuses, and what a master replicates.
use sd_03_distributed_cache.Prelude.{
  ◌≡◌, refl, Bool, true, false, List, [], ◌∷◌, ◌++◌, if◌then◌else◌, Bytes, bytes_beq, Result, ok,
}
use sd_03_distributed_cache.Clock.{Clock}
use sd_03_distributed_cache.Bytes.{codes, upper}
use sd_03_distributed_cache.Protocol.{encode_simple, encode_error}
use sd_03_distributed_cache.Server.{
  Node, Step, is_master, do_set, do_setex, do_expire, do_del, dispatch,
}

module _ {F : Type 0} ⦃clock : Clock F⦄ (n : Node F) where
  record Kept (s : Step F) : Type 0 where
    same : s.0 ≡ n

  either-Kept : {x y : Step F} (b : Bool) → Kept x → Kept y → Kept (if b then x else y)
  either-Kept true h k = h
  either-Kept false h k = k

  reply-Kept : (reply : Result Bytes) → Kept (n, reply)
  reply-Kept reply = record { same = refl }

  module _ (replica : is_master n ≡ false) where
    do_set-replica : (now : F) (args : List Bytes) → (do_set n now args).0 ≡ n
    unfolding do_set
    do_set-replica now [] = refl
    do_set-replica now (key ∷ []) = refl
    do_set-replica now (key ∷ value ∷ opts) = rw (replica, do_set) refl

    do_setex-replica : (now : F) (args : List Bytes) → (do_setex n now args).0 ≡ n
    unfolding do_setex
    do_setex-replica now [] = refl
    do_setex-replica now (key ∷ []) = refl
    do_setex-replica now (key ∷ seconds ∷ []) = refl
    do_setex-replica now (key ∷ seconds ∷ value ∷ []) = rw (replica, do_setex) refl
    do_setex-replica now (key ∷ seconds ∷ value ∷ more ∷ rest) = refl

    do_expire-replica : (now : F) (args : List Bytes) → (do_expire n now args).0 ≡ n
    unfolding do_expire
    do_expire-replica now [] = refl
    do_expire-replica now (key ∷ []) = refl
    do_expire-replica now (key ∷ seconds ∷ []) = rw (replica, do_expire) refl
    do_expire-replica now (key ∷ seconds ∷ more ∷ rest) = refl

    do_del-replica : (args : List Bytes) → (do_del n args).0 ≡ n
    unfolding do_del
    do_del-replica [] = refl
    do_del-replica (key ∷ []) = rw (replica, do_del) refl
    do_del-replica (key ∷ more ∷ rest) = refl

    -- On a node that is not a master, no command but GET changes anything: not the store, not the
    -- replication offset, no queue.
    pub dispatch-replica :
        (printable : Bytes → Bytes) (now : F) (name : Bytes) (args : List Bytes)
        → bytes_beq (upper name) (codes "GET") ≡ false
        → (dispatch printable n now (name ∷ args)).0 ≡ n
    unfolding dispatch
    dispatch-replica printable now name args h =
        rw (h, dispatch)
          ((either-Kept (is (codes "SET")) at_set (
            either-Kept (is (codes "SETEX")) at_setex (
              either-Kept (is (codes "EXPIRE")) at_expire (
                either-Kept (is (codes "DEL")) at_del (
                  either-Kept (is (codes "PING")) (reply-Kept (ok (encode_simple (codes "PONG")))) (
                    either-Kept (is (codes "ROLE")) (reply-Kept (ok (encode_simple (upper n.role))))
                      (reply-Kept unknown))))))).same)
      where
        is : Bytes → Bool
        is c = bytes_beq (upper name) c

        unknown : Result Bytes
        unknown = ok (encode_error (codes "ERR unknown command '" ++ (printable name ++ codes "'")))

        at_set : Kept (do_set n now args)
        at_set = record { same = do_set-replica now args }

        at_setex : Kept (do_setex n now args)
        at_setex = record { same = do_setex-replica now args }

        at_expire : Kept (do_expire n now args)
        at_expire = record { same = do_expire-replica now args }

        at_del : Kept (do_del n args)
        at_del = record { same = do_del-replica args }
