-- ===== src/Store/Holdings.antt =====
-- store/rocks.rs: `apply_holds`. The two possession tables, `hold` and `holdby`, mirror each other,
-- and the last operation on a hash decides whether it is held.
use narshare.Base.{
  ◌≡◌, refl, sym, ap, ◌∙◌, Bool, true, false, not, ◌&&◌, ◌||◌, Option, none, some, List, [], ◌∷◌,
  arith, if◌then◌else◌, ok,
}
use narshare.Base.Order.{nat_ord, list_ord}
use narshare.Base.Sets.{same, same_self, eq_of_same, contains, IsStrict}
use narshare.Base.Keys.{
  get, put, get-put, keys, put-IsStrict, get_above, contains-put_key, contains-delete_key,
}
use narshare.Facts.{Bytes}
use narshare.Store.{
  Db, HoldOp, add, drop_hash, okey, final_ops, write_hold, write_holds, apply_holds,
}

abbrev pub IsName : Bytes → Type 0
IsName origin = okey origin ≡ ok tt

-- Whether a hash is held after the operations, if it `was` held before.
abbrev pub held_after : Bool → Bytes → List HoldOp → Bool
held_after was h [] = was
held_after was h (add k ∷ ops) = held_after (same h k || was) h ops
held_after was h (drop_hash k ∷ ops) = held_after (not (same h k) && was) h ops

abbrev or_was : Option Bool → Bool → Bool
or_was none was = was
or_was (some b) was = b

final_ops-IsStrict :
    (fin : List (Bytes × Bool)) (ops : List HoldOp)
    → IsStrict (keys fin)
    → IsStrict (keys (final_ops fin ops))
unfolding final_ops
final_ops-IsStrict fin [] h = h
final_ops-IsStrict fin (add k ∷ ops) h =
    final_ops-IsStrict (put k true fin) ops (put-IsStrict k true fin h)
final_ops-IsStrict fin (drop_hash k ∷ ops) h =
    final_ops-IsStrict (put k false fin) ops (put-IsStrict k false fin h)

get-final_ops :
    (fin : List (Bytes × Bool)) (ops : List HoldOp) (was : Bool) (h : Bytes)
    → or_was (get h (final_ops fin ops)) was ≡ held_after (or_was (get h fin) was) h ops
unfolding final_ops
get-final_ops fin [] was h = refl
get-final_ops fin (add k ∷ ops) was h =
    get-final_ops (put k true fin) ops was h
    ∙ ap (λ b. held_after b h ops) (ground (arith, get-put k h true fin))
get-final_ops fin (drop_hash k ∷ ops) was h =
    get-final_ops (put k false fin) ops was h
    ∙ ap (λ b. held_after b h ops) (ground (arith, get-put k h false fin))

-- The rows written in turn.
write_all : Db → Bytes → List (Bytes × Bool) → Db
write_all db origin [] = db
write_all db origin ((h, held) ∷ fin) = write_all (write_hold db origin h held) origin fin

write_holds-write_all :
    (db : Db) (origin : Bytes) (fin : List (Bytes × Bool))
    → IsName origin
    → write_holds db origin fin ≡ ok (write_all db origin fin)
unfolding write_holds write_all
write_holds-write_all db origin [] n = refl
write_holds-write_all db origin ((h, held) ∷ fin) n =
    rw n (write_holds-write_all (write_hold db origin h held) origin fin n)

-- The possession tables after `apply_holds`, which a proper origin name never makes fail.
unfoldable pub held_by_ops : Db → Bytes → List HoldOp → Db
unfolding write_all
held_by_ops db origin holds = write_all db origin (final_ops [] holds)

pub apply_holds_lem :
    (db : Db) (origin : Bytes) (holds : List HoldOp)
    → IsName origin
    → apply_holds db origin holds ≡ ok (held_by_ops db origin holds)
unfolding apply_holds held_by_ops
apply_holds_lem db origin holds n = write_holds-write_all db origin (final_ops [] holds) n

abbrev row_value : Bool → Bytes → Bytes × Bool → Bool
row_value was h row = if same h row.0 then row.1 else was

abbrev rows_value : Bool → Bytes → List (Bytes × Bool) → Bool
rows_value was h [] = was
rows_value was h (row ∷ fin) = rows_value (row_value was h row) h fin

write_hold-hold :
    (db : Db) (origin k : Bytes) (held : Bool) (o h : Bytes)
    → contains h ((write_hold db origin k held).hold o) ≡ (
        if same o origin
        then row_value (contains h (db.hold o)) h (k, held)
        else contains h (db.hold o))
unfolding write_hold
write_hold-hold db origin k true o h =
    ground (arith, contains-put_key h k (db.hold origin), eq_of_same o origin)
write_hold-hold db origin k false o h =
    ground (arith, contains-delete_key h k (db.hold origin), eq_of_same o origin)

write_hold-holdby :
    (db : Db) (origin k : Bytes) (held : Bool) (o h : Bytes)
    → contains o ((write_hold db origin k held).holdby h) ≡ (
        if same o origin
        then row_value (contains o (db.holdby h)) h (k, held)
        else contains o (db.holdby h))
unfolding write_hold
write_hold-holdby db origin k true o h =
    ground (arith, contains-put_key o origin (db.holdby k), eq_of_same h k)
write_hold-holdby db origin k false o h =
    ground (arith, contains-delete_key o origin (db.holdby k), eq_of_same h k)

write_all-hold :
    (db : Db) (origin : Bytes) (fin : List (Bytes × Bool)) (o h : Bytes)
    → contains h ((write_all db origin fin).hold o) ≡ (
        if same o origin then rows_value (contains h (db.hold o)) h fin else contains h (db.hold o))
unfolding write_all
write_all-hold db origin [] o h = ground arith
write_all-hold db origin ((k, held) ∷ fin) o h = ground (
  arith,
  write_all-hold (write_hold db origin k held) origin fin o h,
  write_hold-hold db origin k held o h,
)

write_all-holdby :
    (db : Db) (origin : Bytes) (fin : List (Bytes × Bool)) (o h : Bytes)
    → contains o ((write_all db origin fin).holdby h) ≡ (
        if same o origin
        then rows_value (contains o (db.holdby h)) h fin
        else contains o (db.holdby h))
unfolding write_all
write_all-holdby db origin [] o h = ground arith
write_all-holdby db origin ((k, held) ∷ fin) o h = ground (
  arith,
  write_all-holdby (write_hold db origin k held) origin fin o h,
  write_hold-holdby db origin k held o h,
)

rows_value-get :
    (fin : List (Bytes × Bool)) (was : Bool) (h : Bytes)
    → IsStrict (keys fin)
    → rows_value was h fin ≡ or_was (get h fin) was
unfolding get
rows_value-get [] was h s = refl
rows_value-get ((k, held) ∷ fin) was h s = ground (
  arith,
  rows_value-get fin was h s.1,
  rows_value-get fin held h s.1,
  eq_of_same h k,
  get_above k fin s.0,
)

rows_value-final :
    (holds : List HoldOp) (was : Bool) (h : Bytes)
    → rows_value was h (final_ops [] holds) ≡ held_after was h holds
rows_value-final holds was h =
    rows_value-get (final_ops [] holds) was h (final_ops-IsStrict [] holds tt)
    ∙ unfold get in get-final_ops [] holds was h

-- A hash is held by the origin afterwards as its last operation says, and as before without one.
-- No other origin is touched.
pub hold-held_by_ops :
    (db : Db) (origin : Bytes) (holds : List HoldOp) (o h : Bytes)
    → contains h ((held_by_ops db origin holds).hold o) ≡ (
        if same o origin
        then held_after (contains h (db.hold o)) h holds
        else contains h (db.hold o))
unfolding held_by_ops
hold-held_by_ops db origin holds o h =
    write_all-hold db origin (final_ops [] holds) o h
    ∙ ap (λ b. if same o origin then b else contains h (db.hold o))
        (rows_value-final holds (contains h (db.hold o)) h)

pub holdby-held_by_ops :
    (db : Db) (origin : Bytes) (holds : List HoldOp) (o h : Bytes)
    → contains o ((held_by_ops db origin holds).holdby h) ≡ (
        if same o origin
        then held_after (contains o (db.holdby h)) h holds
        else contains o (db.holdby h))
unfolding held_by_ops
holdby-held_by_ops db origin holds o h =
    write_all-holdby db origin (final_ops [] holds) o h
    ∙ ap (λ b. if same o origin then b else contains o (db.holdby h))
        (rows_value-final holds (contains o (db.holdby h)) h)

-- The possession tables mirror one another: who holds a hash, and what an origin holds.
abbrev pub IsMirrored : Db → Type 0
IsMirrored db = (o h : Bytes) → contains h (db.hold o) ≡ contains o (db.holdby h)

pub held_by_ops-IsMirrored :
    (db : Db) (origin : Bytes) (holds : List HoldOp)
    → IsMirrored db
    → IsMirrored (held_by_ops db origin holds)
held_by_ops-IsMirrored db origin holds m o h =
    hold-held_by_ops db origin holds o h
    ∙ ap (λ b. if same o origin then held_after b h holds else b) (m o h)
    ∙ sym (holdby-held_by_ops db origin holds o h)

write_hold-frame :
    (db : Db) (origin h : Bytes) (held : Bool)
    → write_hold db origin h held ≡ record db {
      hold = (write_hold db origin h held).hold;
      holdby = (write_hold db origin h held).holdby;
    }
unfolding write_hold
write_hold-frame db origin h true = refl
write_hold-frame db origin h false = refl

write_all-frame :
    (db : Db) (origin : Bytes) (fin : List (Bytes × Bool))
    → write_all db origin fin ≡ record db {
      hold = (write_all db origin fin).hold;
      holdby = (write_all db origin fin).holdby;
    }
unfolding write_all
write_all-frame db origin [] = refl
write_all-frame db origin ((h, held) ∷ fin) =
    let next = write_hold db origin h held in
    write_all-frame next origin fin
    ∙ ap
        (λ (d : Db). record d {
          hold = (write_all next origin fin).hold;
          holdby = (write_all next origin fin).holdby;
        })
        (write_hold-frame db origin h held)

-- Nothing but the possession tables changes.
pub held_by_ops-frame :
    (db : Db) (origin : Bytes) (holds : List HoldOp)
    → held_by_ops db origin holds ≡ record db {
      hold = (held_by_ops db origin holds).hold;
      holdby = (held_by_ops db origin holds).holdby;
    }
unfolding held_by_ops
held_by_ops-frame db origin holds = write_all-frame db origin (final_ops [] holds)

-- With a proper name the operations never fail. Each hash is then held or not as its last operation
-- says, and as before if it has none; no other origin's possession changes, and the two tables still
-- mirror each other.
pub apply_holds-holds :
    (db : Db) (origin : Bytes) (holds : List HoldOp)
    → IsName origin
    → IsMirrored db
    → (next : Db) × (apply_holds db origin holds ≡ ok next)
      × ((h : Bytes)
          → contains h (next.hold origin) ≡ held_after (contains h (db.hold origin)) h holds)
      × ((o h : Bytes) → same o origin ≡ false → contains h (next.hold o) ≡ contains h (db.hold o))
      × IsMirrored next
apply_holds-holds db origin holds n m = (
  held_by_ops db origin holds,
  apply_holds_lem db origin holds n,
  λ h. hold-held_by_ops db origin holds origin h ∙ rw (same_self origin) refl,
  λ o h d. hold-held_by_ops db origin holds o h ∙ rw d refl,
  held_by_ops-IsMirrored db origin holds m,
)
