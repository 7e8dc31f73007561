-- ===== src/Utils/Names.antt =====
-- getFileName of prototype/utils.cpp: which part of a path it returns.
use fio_relic.Base.{ℕ, ◌≡◌, ◌≢◌, refl, [], ◌∷◌, ◌++◌, none, some, All, All-append, arith}
use fio_relic.Base.Bytes.{Bytes}
use fio_relic.Utils.{after_last, get_file_name}

-- No byte of the text is `c`.
abbrev pub Free : ℕ → Bytes → Type 0
Free c bs = All (λ b. b ≢ c) bs

after_last-Free : (c : ℕ) (bs : Bytes) → Free c bs → after_last c bs ≡ none
unfolding after_last
after_last-Free c [] h = refl
after_last-Free c (b ∷ bs) h = ground (arith, after_last-Free c bs)

after_last-append :
    (c : ℕ) (dir name : Bytes) → Free c name → after_last c (dir ++ c ∷ name) ≡ some name
unfolding after_last
after_last-append c [] name h = ground (arith, after_last-Free c name)
after_last-append c (b ∷ dir) name h = ground (arith, after_last-append c dir name)

-- For a name without separators: after a directory that ends in '/', and holds any bytes, and on its
-- own, the function returns the name.
get_file_name_lem :
    (dir name : Bytes)
    → Free b'/' name
    → Free 92 name
    → (get_file_name (dir ++ b'/' ∷ name) ≡ name) × (get_file_name name ≡ name)
unfolding get_file_name
get_file_name_lem dir name slash back = (
  ground (arith, after_last-append b'/' dir name slash),
  ground (arith, after_last-Free b'/' name slash, after_last-Free 92 name back),
)

-- After a directory that ends in '\' and holds no '/' likewise.
get_file_name_windows :
    (dir name : Bytes)
    → Free b'/' dir
    → Free b'/' name
    → Free 92 name
    → get_file_name (dir ++ 92 ∷ name) ≡ name
unfolding get_file_name
get_file_name_windows dir name free slash back = ground (
  arith,
  after_last-Free b'/' (dir ++ 92 ∷ name)
      (All-append (λ b. b ≢ b'/') dir (92 ∷ name) free (omega arith, slash)),
  after_last-append 92 dir name back,
)
