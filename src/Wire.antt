-- ===== src/Wire.antt =====
-- Sequential readers over a byte sequence: the class Reader of src/protocol/network_messages.cpp and
-- BinaryReader of include/lanlink/protocol/binary.hpp. The state is what has not been read; the two
-- differ in the exception that they throw, which is an argument here.
pub mod Laws
pub mod Lists
use lan_link.Prelude.{
  ℕ, zero, suc, ◌+◌, ◌-◌, ◌*◌, ◌/◌, ◌%◌, ◌^◌, ◌≤◌, ◌<◌, ◌≡◌, ◌≢◌, ◌↔◌, ◌⊎◌, ◌∙◌, Bool, true, false,
  ◌&&◌, ◌||◌, List, [], ◌∷◌, ◌++◌, ltb, ◌==◌, ==_iff, if◌then◌else◌, Result, ok, throw, Exception,
  >>=-inv, length, take, drop, bytes_eq→eq,
}
use lan_link.Bytes.{read_loop}

abbrev pub Reader {ℓ} : Type ℓ → Type ℓ
Reader A = List ℕ → Result Exception (A × List ℕ)

abbrev pub go_on {ℓ κ} :
    {A : Type ℓ} {B : Type κ}
    → Result Exception (A × List ℕ)
    → (A → Reader B)
    → Result Exception (B × List ℕ)
go_on (throw e) f = throw e
go_on (ok (a, rest)) f = f a rest

infixl 5 ◌>>=◌ ◌>>◌
unfoldable pub ◌>>=◌ {ℓ κ} : {A : Type ℓ} {B : Type κ} → Reader A → (A → Reader B) → Reader B
◌>>=◌ r f bytes = go_on (r bytes) f

abbrev pub ◌>>◌ {ℓ} : {B : Type ℓ} → Reader (Unit {0}) → Reader B → Reader B
r >> s = r >>= λ _. s

unfoldable pub pure {ℓ} : {A : Type ℓ} → A → Reader A
pure a bytes = ok (a, bytes)

-- A test on what was read.
unfoldable pub check : Exception → Bool → Reader (Unit {0})
check e test bytes = if test then ok (tt, bytes) else throw e

-- `read_array`, `read_string` and `bytes`
unfoldable pub read_bytes : Exception → ℕ → Reader (List ℕ)
read_bytes e count bytes =
    if ltb (length bytes) count then throw e else ok (take count bytes, drop count bytes)

-- `read_integer` and `get`
unfoldable pub get_integer : Exception → ℕ → Reader ℕ
get_integer e width bytes =
    if ltb (length bytes) width
    then throw e
    else ok (read_loop (256 ^ width) 0 (take width bytes), drop width bytes)

-- `require_finished` and `finish`
unfoldable pub finished : Exception → Reader (Unit {0})
finished e [] = ok (tt, [])
finished e (b ∷ bytes) = throw e

-- `for (index = 0; index < count; ++index) result.push_back(read(...))`
unfoldable pub read_many {ℓ} : {A : Type ℓ} → ℕ → Reader A → Reader (List A)
read_many zero r = pure []
read_many (suc count) r = do a ← r; rest ← read_many count r; pure (a ∷ rest)

-- What a decoder returns, when its reader has returned.
abbrev pub value_of {ℓ} : {A : Type ℓ} → Result Exception (A × List ℕ) → Result Exception A
value_of (throw e) = throw e
value_of (ok (a, rest)) = ok a

-- An encoder is called for what it throws.
abbrev pub returns {ℓ} : {A : Type ℓ} → Result Exception A → Bool
returns (throw e) = false
returns (ok a) = true
