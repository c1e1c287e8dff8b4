-- ===== src/Wire/Laws.antt =====
-- Reading what was written, field by field.
use lan_link.Prelude.{
  ℕ, ◌^◌, ◌<◌, ◌≡◌, refl, ◌∙◌, subst, Bool, true, false, List, [], ◌++◌, append-nil, arith, ltb, ok,
  Exception, length, take, drop, length-append, take-append_left, drop-append_left,
}
use lan_link.Bytes.{
  append_integer, append_integer-IsBytes, length-append_integer, read_loop, read_loop-be_value,
  be_value-append_integer,
}
use lan_link.Wire.{◌>>=◌, Reader, check, read_bytes, get_integer, finished}
use native.Mathlib.Nat.{mod-eq_of_lt}

-- A reader that has returned goes on with what it has left.
pub next_ok {ℓ κ} :
    {A : Type ℓ} {B : Type κ} (r : Reader A) (f : A → Reader B) (bytes rest : List ℕ) (a : A)
    → r bytes ≡ ok (a, rest)
    → (r >>= f) bytes ≡ f a rest
unfolding ◌>>=◌
next_ok r f bytes rest a h = rw h refl

pub read_bytes-append :
    (e : Exception) (n : ℕ) (xs ys : List ℕ)
    → length xs ≡ n
    → read_bytes e n (xs ++ ys) ≡ ok (xs, ys)
unfolding read_bytes
read_bytes-append e n xs ys h =
    let here : take n (xs ++ ys) ≡ xs =
      subst (λ m. take m (xs ++ ys) ≡ xs) h (take-append_left xs ys) in
    let next : drop n (xs ++ ys) ≡ ys =
      subst (λ m. drop m (xs ++ ys) ≡ ys) h (drop-append_left xs ys) in
    let room : ltb (length (xs ++ ys)) n ≡ false = ground (arith, length-append xs ys) in
    rw (room, here, next) refl

pub get_integer-append :
    (e : Exception) (width value : ℕ) (ys : List ℕ)
    → value < 256 ^ width
    → get_integer e width (append_integer width value ++ ys) ≡ ok (value, ys)
unfolding get_integer
get_integer-append e width value ys h =
    let xs = append_integer width value in
    let n = length-append_integer width value in
    let here : take width (xs ++ ys) ≡ xs =
      subst (λ m. take m (xs ++ ys) ≡ xs) n (take-append_left xs ys) in
    let next : drop width (xs ++ ys) ≡ ys =
      subst (λ m. drop m (xs ++ ys) ≡ ys) n (drop-append_left xs ys) in
    let room : ltb (length (xs ++ ys)) width ≡ false = ground (arith, length-append xs ys, n) in
    let same : read_loop (256 ^ width) 0 xs ≡ value =
      read_loop-be_value width xs (append_integer-IsBytes width value) n
      ∙ be_value-append_integer width value
      ∙ mod-eq_of_lt h in
    rw (room, here, next, same) refl

module _ {ℓ} {B : Type ℓ} where
  pub read_bytes_next :
      (e : Exception) (n : ℕ) (f : List ℕ → Reader B) (xs ys : List ℕ)
      → length xs ≡ n
      → (read_bytes e n >>= f) (xs ++ ys) ≡ f xs ys
  read_bytes_next e n f xs ys h = next_ok _ f (xs ++ ys) ys xs (read_bytes-append e n xs ys h)

  pub get_integer_next :
      (e : Exception) (width value : ℕ) (f : ℕ → Reader B) (ys : List ℕ)
      → value < 256 ^ width
      → (get_integer e width >>= f) (append_integer width value ++ ys) ≡ f value ys
  get_integer_next e width value f ys h =
      next_ok _ f (append_integer width value ++ ys) ys value
        (get_integer-append e width value ys h)

  pub check_next :
      (e : Exception) (test : Bool) (f : Unit {0} → Reader B) (ys : List ℕ)
      → test ≡ true
      → (check e test >>= f) ys ≡ f tt ys
  unfolding ◌>>=◌ check
  check_next e test f ys h = rw h refl

  pub finished_next : (e : Exception) (f : Unit {0} → Reader B) → (finished e >>= f) [] ≡ f tt []
  unfolding ◌>>=◌ finished
  finished_next e f = refl

  -- The same where nothing follows.
  pub read_bytes_last :
      (e : Exception) (n : ℕ) (f : List ℕ → Reader B) (xs : List ℕ)
      → length xs ≡ n
      → (read_bytes e n >>= f) xs ≡ f xs []
  read_bytes_last e n f xs h =
      subst (λ z. (read_bytes e n >>= f) z ≡ f xs []) (append-nil xs)
        (read_bytes_next e n f xs [] h)

  pub get_integer_last :
      (e : Exception) (width value : ℕ) (f : ℕ → Reader B)
      → value < 256 ^ width
      → (get_integer e width >>= f) (append_integer width value) ≡ f value []
  get_integer_last e width value f h =
      subst (λ z. (get_integer e width >>= f) z ≡ f value [])
        (append-nil (append_integer width value)) (get_integer_next e width value f [] h)
