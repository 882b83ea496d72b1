-- ===== src/Index/Apply/Snapshot.antt =====
-- index.rs: `apply_snapshot` on each of its answers.
use narshare.Base.{
  ℕ, ◌≡◌, refl, subst, ◌∙◌, inl, inr, true, false, ◌&&◌, List, ◌==◌, length, Bool-cases, ok, err,
  unexpected_origin,
}
use narshare.Base.Order.{nat_ord, list_ord}
use narshare.Base.Sets.{same, same_self, contains}
use narshare.Facts.{Bytes}
use narshare.Store.{Db}
use narshare.Store.Holdings.{IsName, IsMirrored}
use narshare.Store.Apply.{clock_at, HasRuns}
use narshare.Store.Replace.{
  is_stale, replaced, replace_holdings_lem, hold-replaced, replaced-clock, replaced-IsMirrored,
  replaced-HasRuns, contains-keep_if,
}
use narshare.Index.Messages.{Config}
use narshare.Index.Apply.{apply_snapshot, is_unexpected, whole_hashes}

pub apply_snapshot_refused :
    (c : Config) (db : Db) (origin : Bytes) (generation seq : ℕ) (held : List Bytes)
    → is_unexpected c origin ≡ true
    → apply_snapshot c db origin generation seq held ≡ err unexpected_origin
unfolding apply_snapshot
apply_snapshot_refused c db origin generation seq held u = rw u refl

module _ (c : Config) (db : Db) (origin : Bytes) (generation seq : ℕ) (held : List Bytes)
    (n : IsName origin) (u : is_unexpected c origin ≡ false) where
  abbrev pub after_snapshot : Db
  after_snapshot = replaced db origin generation seq (whole_hashes held)

  -- A snapshot that is older than the copy, by generation or by sequence number, changes nothing.
  pub apply_snapshot_stale :
      is_stale (clock_at db origin) generation seq ≡ true
      → apply_snapshot c db origin generation seq held ≡ ok (db, 0)
  unfolding apply_snapshot
  apply_snapshot_stale s =
      rw (u, replace_holdings_lem db origin generation seq (whole_hashes held) n, s) refl

  -- Any other one replaces the copy: the origin holds exactly the whole hashes that it lists, its
  -- clock is the snapshot's with an empty journal, and no other origin changes.
  pub apply_snapshot-replaces :
      is_stale (clock_at db origin) generation seq ≡ false
      → (apply_snapshot c db origin generation seq held
          ≡ ok (after_snapshot, length (whole_hashes held)))
        × ((h : Bytes)
            → contains h (after_snapshot.hold origin) ≡ ((length h == 32) && contains h held))
        × (clock_at after_snapshot origin
            ≡ record { generation = generation; seq = seq; tail_seq = seq })
        × ((o : Bytes)
            → same o origin ≡ false
            → (clock_at after_snapshot o ≡ clock_at db o)
              × ((h : Bytes) → contains h (after_snapshot.hold o) ≡ contains h (db.hold o)))
  unfolding apply_snapshot
  apply_snapshot-replaces s = (
    rw (u, replace_holdings_lem db origin generation seq (whole_hashes held) n, s) refl,
    λ h.
        hold-replaced db origin generation seq (whole_hashes held) origin h
        ∙ rw (same_self origin) (contains-keep_if (λ k. length k == 32) h held),
    replaced-clock db origin generation seq (whole_hashes held) origin ∙ rw (same_self origin) refl,
    λ o d. (
      replaced-clock db origin generation seq (whole_hashes held) o ∙ rw d refl,
      λ h. hold-replaced db origin generation seq (whole_hashes held) o h ∙ rw d refl,
    ),
  )

pub apply_snapshot-invariants :
    (c : Config) (db next : Db) (origin : Bytes) (generation seq count : ℕ) (held : List Bytes)
    → IsName origin
    → HasRuns db
    → IsMirrored db
    → apply_snapshot c db origin generation seq held ≡ ok (next, count)
    → HasRuns next × IsMirrored next
apply_snapshot-invariants c db next origin generation seq count held n runs m h =
    elim (Bool-cases (is_unexpected c origin)) [
      | inl u ↦ cc (apply_snapshot_refused c db origin generation seq held u)
      | inr u ↦ elim (Bool-cases (is_stale (clock_at db origin) generation seq)) [
        | inl s ↦
            let e : db ≡ next = cc (apply_snapshot_stale c db origin generation seq held n u s) in
            (subst HasRuns e runs, subst IsMirrored e m)
        | inr s ↦
            let e : after_snapshot c db origin generation seq held n u ≡ next =
              cc ((apply_snapshot-replaces c db origin generation seq held n u s).0) in
            (
              subst HasRuns e (replaced-HasRuns db origin generation seq (whole_hashes held) runs),
              subst IsMirrored e
                  (replaced-IsMirrored db origin generation seq (whole_hashes held) m),
            )
      ]
    ]
