-- ===== src/Discovery/Watcher.antt =====
-- `EtcdWatcher`: the list of the nodes that are registered, and the events of those that come and go.
use sd_03_distributed_cache.Prelude.{
  ℕ, Bool, ◌||◌, Option, none, some, List, [], ◌∷◌, if◌then◌else◌, Bytes, Exn, Result, ok, raise,
  runtime_error,
}
use sd_03_distributed_cache.Prelude.Int.{ℤ}
use sd_03_distributed_cache.Bytes.{codes, starts_with}
use sd_03_distributed_cache.Discovery.{Etcd, connect, key_to_host_port}

-- `part in s`
unfoldable pub contains_text : Bytes → Bytes → Bool
contains_text part [] = starts_with part []
contains_text part (c ∷ cs) = starts_with part (c ∷ cs) || contains_text part cs

-- An event of etcd: its key, where it has one as bytes or text, and the name of its class.
pub record Event : Type 0 where
  pub key : Option Bytes
  pub type_name : Bytes

unfoldable pub is_delete : Event → Bool
unfolding contains_text
is_delete e = contains_text (codes "Delete") e.type_name

-- The addresses of the keys, without those that are no address.
unfoldable pub addresses : Bytes → List Bytes → List (Bytes × ℤ)
unfolding key_to_host_port
addresses prefix [] = []
addresses prefix (key ∷ keys) = elim (key_to_host_port key prefix) [
  | none ↦ addresses prefix keys
  | some address ↦ address ∷ addresses prefix keys
]

-- The address that an event is about.
unfoldable pub subject : Bytes → Event → Option (Bytes × ℤ)
unfolding key_to_host_port
subject prefix e = elim e.key [ none ↦ none | some key ↦ key_to_host_port key prefix ]

-- What the events call, on a state of theirs. An exception is dropped; what was changed stays.
module _ {S : Type 0} (on_add on_remove : S → Bytes → ℤ → S × Option Exn) where
  unfoldable pub on_event : Bytes → S → Event → S
  unfolding subject is_delete
  on_event prefix s e = elim (subject prefix e) [
    | none ↦ s
    | some (host, port) ↦ if is_delete e then (on_remove s host port).0 else (on_add s host port).0
  ]

  -- `_callback`
  unfoldable pub callback : Bytes → S → List Event → S
  unfolding on_event
  callback prefix s [] = s
  callback prefix s (e ∷ events) = callback prefix (on_event prefix s e) events

pub record EtcdWatcher (Handle : Type 0) : Type 0 where
  pub prefix : Bytes
  pub handle : Handle
  pub watch_id : Option ℕ

module _ {W Handle Lease : Type 0} (etcd : Etcd W Handle Lease) where
  unfoldable pub new_watcher : Bool → W → List Bytes → Bytes → W × Result (EtcdWatcher Handle)
  unfolding connect
  new_watcher enabled w endpoints prefix =
      let (w', opened) = connect etcd enabled w endpoints in
      elim opened [
        | raise x ↦ (w', raise x)
        | ok handle ↦ (w', ok (record { prefix = prefix; handle = handle; watch_id = none }))
      ]

  unfoldable pub list_nodes : W → EtcdWatcher Handle → W × Result (List (Bytes × ℤ))
  unfolding addresses
  list_nodes w t =
      let (w', keys) = etcd.get_prefix w t.handle t.prefix in
      elim keys [ raise x ↦ (w', raise x) | ok ks ↦ (w', ok (addresses t.prefix ks)) ]

  unfoldable pub watch : W → EtcdWatcher Handle → W × EtcdWatcher Handle × Option Exn
  watch w t = elim t.watch_id [
    | some _ ↦ (w, t, some runtime_error)
    | none ↦
        let (w', started) = etcd.add_watch w t.handle t.prefix in
        elim started [
          | raise x ↦ (w', t, some x)
          | ok id ↦ (w', record t { watch_id = some id }, none)
        ]
  ]

  abbrev pub cancel : W → EtcdWatcher Handle → W
  cancel w t = elim t.watch_id [ none ↦ w | some id ↦ (etcd.cancel_watch w t.handle id).0 ]

  -- `stop`: exceptions of `cancel_watch` and of `close` are dropped.
  unfoldable pub stop : W → EtcdWatcher Handle → W × EtcdWatcher Handle
  stop w t = ((etcd.close (cancel w t) t.handle).0, record t { watch_id = none })
