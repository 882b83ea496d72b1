-- ===== src/Index/Own/Differ.antt =====
-- index.rs: what `sync_own_db` leaves.
use narshare.Base.{
  ℕ, ◌≡◌, refl, sym, ap, ◌∙◌, inl, inr, true, not, ◌&&◌, List, [], ◌∷◌, ◌++◌, map, arith,
  Bool-cases, keep_if, is_empty, length, ok,
}
use narshare.Base.Order.{nat_ord, list_ord}
use narshare.Base.Sets.{contains, canon, contains-canon}
use narshare.Facts.{Bytes, Attestation}
use narshare.Wire.{Wire}
use narshare.Store.{Db, add, drop_hash, holdings}
use narshare.Store.Holdings.{IsName, IsMirrored, held_after}
use narshare.Store.Apply.{HasRuns}
use narshare.Store.Replace.{contains-keep_if, held_after-append, held_after-adds, held_after-drops}
use narshare.Index.Messages.{Config}
use narshare.Index.Export.{att, hold}
use narshare.Index.Export.Commit.{export_ops-commits}
use narshare.Index.Own.{
  Local, hashes_of, own_holds, new_attests, is_claimed, export_if_any, sync_own_db,
}

-- The operations turn what is exported into what is held locally.
own_holds-held :
    (h : Bytes) (local held : List Bytes)
    → held_after (contains h held) h (own_holds local held) ≡ contains h local
unfolding own_holds
own_holds-held h local held =
    let come = keep_if (λ k. not (contains k held)) (canon local) in
    let gone = keep_if (λ k. not (contains k local)) held in
    held_after-append (contains h held) h (map add come) (map drop_hash gone)
    ∙ held_after-drops (held_after (contains h held) h (map add come)) h gone
    ∙ ground (
      arith,
      held_after-adds (contains h held) h come,
      contains-keep_if (λ k. not (contains k held)) h (canon local),
      contains-keep_if (λ k. not (contains k local)) h held,
      contains-canon h local,
    )

nil_of_empty {ℓ} : {A : Type ℓ} (xs : List A) → is_empty xs ≡ true → xs ≡ []
nil_of_empty [] h = refl
nil_of_empty (x ∷ xs) h = cc

-- With a proper own name, and where the references of the new attestations can be read, the run
-- succeeds. Then this node is recorded as holding exactly the hashes of its local paths, and both
-- invariants of the store stay.
pub sync_own_db-holds :
    (c : Config) (w : Wire) (l : Local) (db : Db) (attests : List Attestation)
    → IsName c.self_name
    → HasRuns db
    → IsMirrored db
    → new_attests l (is_claimed db.facts.att) l.candidates ≡ ok attests
    → (next : Db) × (emitted : ℕ) × (sync_own_db c w l db ≡ ok (next, emitted))
      × ((h : Bytes) → contains h (next.hold c.self_name) ≡ contains h (hashes_of l.candidates))
      × HasRuns next
      × IsMirrored next
unfolding sync_own_db holdings export_if_any
sync_own_db-holds c w l db attests n runs m e =
    let held = db.hold c.self_name in
    let ops = own_holds (hashes_of l.candidates) held in
    elim (Bool-cases (is_empty attests && is_empty ops)) [
      | inl q ↦
          let none_left : ops ≡ [] = nil_of_empty ops (ground arith) in
          (
            db,
            0,
            rw (n, e, q) refl,
            λ h.
                sym (ap (held_after (contains h held) h) none_left)
                ∙ own_holds-held h (hashes_of l.candidates) held,
            runs,
            m,
          )
      | inr q ↦
          let (next, exports, _, hld, _, runs2, m2, _) =
            export_ops-commits c w db attests ops n runs m in
          (
            next,
            length (map att attests ++ map hold ops),
            rw (n, e, q) exports,
            λ h. hld h ∙ own_holds-held h (hashes_of l.candidates) held,
            runs2,
            m2,
          )
    ]
