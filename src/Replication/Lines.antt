-- ===== src/Replication/Lines.antt =====
-- Lines of the replication stream: how the reader finds and splits what the writer wrote.
use sd_03_distributed_cache.Prelude.{
  ℕ, suc, ◌≡◌, refl, ap, sym, ◌∙◌, arith, true, false, ◌==◌, some, [], ◌∷◌, ◌++◌, append_assoc,
  append-nil, length, take, drop, Bytes, All,
}
use sd_03_distributed_cache.Prelude.Int.{pos}
use sd_03_distributed_cache.Bytes.{find_byte, is_space, is_digit, flush, split_aux}
use sd_03_distributed_cache.Bytes.Decimal.{AreDigits, show, show-AreDigits, int, int-show}
use sd_03_distributed_cache.Replication.Replica.{read_line}

-- No line feed, and no whitespace at all.
abbrev pub OneLine : Bytes → Type 0
OneLine = All (λ c. (c == 10) ≡ false)

abbrev pub OneWord : Bytes → Type 0
OneWord = All (λ c. is_space c ≡ false)

pub append-OneLine : (s t : Bytes) → OneLine s → OneLine t → OneLine (s ++ t)
append-OneLine [] t hs ht = ht
append-OneLine (c ∷ s) t (h, hs) ht = (h, append-OneLine s t hs ht)

pub show-OneLine : (n : ℕ) → OneLine (show n)
unfolding is_digit
show-OneLine n = go (show n) (show-AreDigits n)
  where
    go : (s : Bytes) → AreDigits s → OneLine s
    go [] h = h
    go (c ∷ s) h = (ground arith, go s h.1)

pub show-OneWord : (n : ℕ) → OneWord (show n)
unfolding is_digit is_space
show-OneWord n = go (show n) (show-AreDigits n)
  where
    go : (s : Bytes) → AreDigits s → OneWord s
    go [] h = h
    go (c ∷ s) h = (ground arith, go s h.1)

pub OneWord-OneLine : (s : Bytes) → OneWord s → OneLine s
unfolding is_space
OneWord-OneLine [] h = h
OneWord-OneLine (c ∷ s) (h, hs) = (ground arith, OneWord-OneLine s hs)

find_byte-line :
    (line rest : Bytes) → OneLine line → find_byte 10 (line ++ 10 ∷ rest) ≡ some (length line)
unfolding find_byte
find_byte-line [] rest h = refl
find_byte-line (c ∷ line) rest (h, hs) = rw (h, find_byte-line line rest hs) refl

-- A line is read with its end, and nothing of what follows.
pub read_line-line :
    (line rest : Bytes) → OneLine line → read_line (line ++ 10 ∷ rest) ≡ (line ++ 10 ∷ [], rest)
unfolding read_line
read_line-line line rest h =
    rw (find_byte-line line rest h, read_line) (cc (taken line, dropped line))
  where
    taken : (l : Bytes) → take (suc (length l)) (l ++ 10 ∷ rest) ≡ l ++ 10 ∷ []
    taken [] = refl
    taken (c ∷ l) = ap (◌∷◌ c) (taken l)

    dropped : (l : Bytes) → drop (suc (length l)) (l ++ 10 ∷ rest) ≡ rest
    dropped [] = refl
    dropped (c ∷ l) = dropped l

-- A word up to a whitespace byte.
pub split-word :
    (word s : Bytes) (c : ℕ) (rest : Bytes)
    → OneWord s
    → is_space c ≡ true
    → split_aux word (s ++ c ∷ rest) ≡ flush (word ++ s) (split_aux [] rest)
unfolding split_aux
split-word word [] c rest h e =
    rw (e, split_aux) (ap (λ (t : Bytes). flush t (split_aux [] rest)) (sym (append-nil word)))
split-word word (d ∷ s) c rest (h, hs) e =
    rw (h, split_aux)
      (split-word (word ++ d ∷ []) s c rest hs e
        ∙ ap (λ (t : Bytes). flush t (split_aux [] rest)) (append_assoc word (d ∷ []) s))

pub split-show :
    (n c : ℕ) (rest : Bytes)
    → is_space c ≡ true
    → split_aux [] (show n ++ c ∷ rest) ≡ show n ∷ split_aux [] rest
unfolding int
split-show n c rest e = split-word [] (show n) c rest (show-OneWord n) e ∙ go (show n) (int-show n)
  where
    go : (s : Bytes) → int s ≡ some (pos n) → flush s (split_aux [] rest) ≡ s ∷ split_aux [] rest
    go [] h = absurd (ground arith)
    go (d ∷ s) h = refl
