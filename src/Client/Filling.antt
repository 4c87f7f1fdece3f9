-- ===== src/Client/Filling.antt =====
-- The loops that fill the buffer, whatever the chunks are.
use sd_03_distributed_cache.Prelude.{
  ℕ, ◌+◌, ◌≤◌, min, ◌≡◌, refl, ap, sym, ◌∙◌, arith, ◌==◌, Bool, true, false, Option, none, some,
  List, [], ◌∷◌, ◌++◌, append_assoc, append-nil, length, length-append, take, drop,
  take-length_append, drop-length_append, Bytes, All, Bool-cases, inl, inr, ok,
}
use sd_03_distributed_cache.Prelude.Int.{pos}
use sd_03_distributed_cache.Bytes.{find_crlf, slice}
use sd_03_distributed_cache.Bytes.Decimal.{show, int-show}
use sd_03_distributed_cache.Bytes.Slices.{
  find_crlf-line, find_crlf-append, find_crlf-le, take-front, drop-front,
}
use sd_03_distributed_cache.Protocol.{delete_to}
use sd_03_distributed_cache.Client.Reading.{
  Stream, fill, has_line, is_some, cut_line, read_line, has_bytes, read_exact, read_bulk,
  read_length, concat, pending, IsOpen, Reads,
}

record Filled (enough : Bytes → Bool) (all : Bytes) (r : Stream × Bool) : Type 0 where
  whole : pending r.0 ≡ all
  open_still : IsOpen r.0.chunks
  met : enough r.0.buf ≡ true
  said : r.1 ≡ true

-- Where the bytes to come are enough, the loop ends with enough of them, and loses none.
fill-Filled :
    (enough : Bytes → Bool) (buf : Bytes) (cs : List Bytes)
    → IsOpen cs
    → enough (buf ++ concat cs) ≡ true
    → Filled enough (buf ++ concat cs) (fill enough buf cs)
unfolding fill
fill-Filled enough buf [] o h =
    let e = ap enough (sym (append-nil buf)) ∙ h in
    record { whole = refl; open_still = tt; met = e; said = e }
fill-Filled enough buf ([] ∷ cs) o h = absurd o
fill-Filled enough buf ((c ∷ chunk) ∷ cs) o h = elim (Bool-cases (enough buf)) [
  | inl e ↦ rw (e, fill) (record { whole = refl; open_still = o; met = e; said = refl })
  | inr e ↦
      let r =
        fill-Filled enough (buf ++ c ∷ chunk) cs o
          (ap enough (append_assoc buf (c ∷ chunk) (concat cs)) ∙ h) in
      rw (e, fill)
        (record {
          whole = r.whole ∙ append_assoc buf (c ∷ chunk) (concat cs);
          open_still = r.open_still;
          met = r.met;
          said = r.said;
        })
]

-- What stands before `n` bytes of the buffer, and behind them.
place-le : (n m : ℕ) → n ≤ m → min n m ≡ n
place-le n m h = omega (arith, h)

cut :
    (s : Stream) (front rest : Bytes) (n : ℕ)
    → pending s ≡ front ++ rest
    → n ≡ length front
    → n ≤ length s.buf
    → (slice s.buf (pos 0) (pos n) ≡ front) × (delete_to s.buf (pos n) ++ concat s.chunks ≡ rest)
unfolding slice
cut s front rest n e en h = (
  ap (λ (t : ℕ). drop t (take (min n (length s.buf)) s.buf)) {y = 0} (omega arith)
      ∙ ap (λ (t : ℕ). take t s.buf) (place-le n (length s.buf) h)
      ∙ sym (take-front n s.buf (concat s.chunks) h)
      ∙ ap (take n) e
      ∙ ap (λ (t : ℕ). take t (front ++ rest)) en
      ∙ take-length_append front rest,
  ap (λ (t : ℕ). drop t s.buf ++ concat s.chunks) (place-le n (length s.buf) h)
      ∙ sym (drop-front n s.buf (concat s.chunks) h)
      ∙ ap (drop n) e
      ∙ ap (λ (t : ℕ). drop t (front ++ rest)) en
      ∙ drop-length_append front rest,
)

read_exact-Reads :
    (s : Stream) (value rest : Bytes)
    → IsOpen s.chunks
    → pending s ≡ value ++ rest
    → Reads (read_exact (pos (length value)) s) (ok value) rest
unfolding read_exact
read_exact-Reads s value rest o e =
    let there : has_bytes (pos (length value)) (pending s) ≡ true =
      ground (arith, ap length e, length-append {0} value rest) in
    let r = fill-Filled (has_bytes (pos (length value))) s.buf s.chunks o there in
    let t = (fill (has_bytes (pos (length value))) s.buf s.chunks).0 in
    let h : length value ≤ length t.buf = ground (arith, r.met) in
    let c = cut t value rest (length value) (r.whole ∙ e) refl h in
    rw (r.said, read_exact) (record { returned = ap ok c.0; left = c.1; open_still = r.open_still })

-- No carriage return.
abbrev pub IsLine : Bytes → Type 0
IsLine = All (λ c. (c == 13) ≡ false)

pub read_line-Reads :
    (s : Stream) (line rest : Bytes)
    → IsOpen s.chunks
    → IsLine line
    → pending s ≡ line ++ 13 ∷ 10 ∷ rest
    → Reads (read_line s) (ok line) rest
unfolding read_line cut_line
read_line-Reads s line rest o l e = go (find_crlf t.buf) refl
  where
    there : has_line (pending s) ≡ true
    there = ap is_some (ap find_crlf e ∙ find_crlf-line line rest l)

    r : Filled has_line (pending s) (fill has_line s.buf s.chunks)
    r = fill-Filled has_line s.buf s.chunks o there

    t : Stream
    t = (fill has_line s.buf s.chunks).0

    go : (found : Option ℕ) → find_crlf t.buf ≡ found → Reads (read_line s) (ok line) rest
    go none f = absurd (cc r.met)
    go (some n) f =
        let same : some n ≡ some (length line) =
          sym (find_crlf-append t.buf (concat t.chunks) n f)
          ∙ ap find_crlf (r.whole ∙ e)
          ∙ find_crlf-line line rest l in
        let en : n ≡ length line = ground (arith, same) in
        let inside : n + 2 ≤ length t.buf = find_crlf-le t.buf n f in
        let whole : pending t ≡ (line ++ 13 ∷ 10 ∷ []) ++ rest =
          r.whole ∙ e ∙ sym (append_assoc line (13 ∷ 10 ∷ []) rest) in
        rw (f, read_line)
          (record {
            returned =
                ap ok (cut t line (13 ∷ 10 ∷ rest) n (r.whole ∙ e) en (omega (arith, inside))).0;
            left =
                (cut t (line ++ 13 ∷ 10 ∷ []) rest (n + 2) whole
                  (omega (arith, en, length-append {0} line (13 ∷ 10 ∷ []))) inside).1;
            open_still = r.open_still;
          })

-- A bulk length that `show` printed is not -1.
pub read_length-show : (n : ℕ) (s : Stream) → read_length (show n) s ≡ read_bulk (pos n) s
unfolding read_length
read_length-show n s = rw (int-show n, read_length) refl

pub read_bulk-Reads :
    (s : Stream) (value rest : Bytes)
    → IsOpen s.chunks
    → pending s ≡ value ++ (13 ∷ 10 ∷ rest)
    → Reads (read_bulk (pos (length value)) s) (ok (some value)) rest
unfolding read_bulk
read_bulk-Reads s value rest o e =
    let r = read_exact-Reads s value (13 ∷ 10 ∷ rest) o e in
    let q =
      read_exact-Reads (read_exact (pos (length value)) s).0 (13 ∷ 10 ∷ []) rest r.open_still
        r.left in
    rw (r.returned, read_bulk)
      (rw (q.returned, read_bulk)
        (record { returned = refl; left = q.left; open_still = q.open_still }))
