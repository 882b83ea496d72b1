-- ===== src/Base/Errors.antt =====
-- `anyhow::Result`: a value, or the reason of the failure.
use Prim.Native.Nat.{ℕ}
use mathlib.Core.Bool.{Bool, true, false}
use mathlib.Core.Option.{Option, none, some}
use mathlib.Core.Path.{◌≡◌, refl}

-- The errors of the modelled code, one for each message of a `bail!` or a `context`, and
-- `index_panic` for an index out of bounds. `out_of_fuel` is a loop of the model that has not ended.
pub data Error : Type 0 where
  origin_name_length unexpected_origin self_apply_raced corrupt_event : Error
  zero_segment_bytes too_deep segment_count zero_segment bad_segment_hash : Error
  not_sorted size_mismatch unsupported_file : Error
  nar_hash_disagrees nar_size_disagrees exceeds_window two_lengths index_panic : Error
  no_colon unsupported_nar_hash bad_nar_hash bad_nar_size : Error
  missing_url missing_store_path missing_nar_hash missing_nar_size : Error
  non_utf8 out_of_fuel : Error
  merkle_depth : ℕ → Error

pub data Result {ℓ} (A : Type ℓ) : Type ℓ where
  ok : A → Result A
  err : Error → Result A

-- `if b { bail!(e) }`
abbrev pub bail_if : Bool → Error → Result (Unit {0})
bail_if b e = elim b [ true ↦ err e | false ↦ ok tt ]

-- `o.context(e)?`
abbrev pub context {ℓ} : {A : Type ℓ} → Option A → Error → Result A
context none e = err e
context (some a) e = ok a

-- `?`: the value is passed on, a failure ends the function.
infixl 5 ◌>>=◌
abbrev pub ◌>>=◌ {κ ℓ} : {A : Type ℓ} {B : Type κ} (m : Result A) (next : A → Result B) → Result B
m >>= next = elim m [ ok value ↦ next value | err reason ↦ err reason ]

infixl 5 ◌>>◌
abbrev pub ◌>>◌ {κ} : {B : Type κ} (check : Result (Unit {0})) (next : Result B) → Result B
check >> next = check >>= λ _. next

-- What ran before a result.
pub bind-ok {κ ℓ} :
    {A : Type ℓ} {B : Type κ} (m : Result A) (next : A → Result B) (b : B)
    → (m >>= next) ≡ ok b
    → (a : A) × (m ≡ ok a) × (next a ≡ ok b)
bind-ok (ok a) next b h = (a, refl, h)
bind-ok (err e) next b h = cc

pub bail_if-ok {κ} :
    {B : Type κ} (t : Bool) (e : Error) (next : Result B) (b : B)
    → (bail_if t e >> next) ≡ ok b
    → (t ≡ false) × (next ≡ ok b)
bail_if-ok true e next b h = cc
bail_if-ok false e next b h = (refl, h)

pub context-ok {ℓ} :
    {A : Type ℓ} (o : Option A) (e : Error) (a : A) → context o e ≡ ok a → o ≡ some a
context-ok none e a h = cc
context-ok (some x) e a h = cc
