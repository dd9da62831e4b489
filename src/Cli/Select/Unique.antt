-- ===== src/Cli/Select/Unique.antt =====
-- A prefix selects a request only if it is the prefix of no other.
use shudo.Prelude.{
  ◌≤◌, ◌≡◌, refl, Bool, false, Option, none, some, some_inj, List, [], ◌∷◌, Bytes, arith, length,
  ltb, has_prefix, is_empty, Bool-cases, inl, inr, ℤ, Result, ok, err, ok_inj, err_and_ok, ap,
}
use shudo.State.Sql.{count_where, select_first}
use shudo.Daemon.Records.{RequestRecord}
use shudo.Cli.Select.{Terminal, SelectError, match_prefix, matched_id, select_request}

abbrev pub has_selector : (Bytes → Bytes) → Bytes → RequestRecord → Bool
has_selector lower selector r = has_prefix (lower r.request_id) (lower selector)

-- After a match, no other one comes.
match_prefix-some :
    (lower : Bytes → Bytes) (selector : Bytes) (f r : RequestRecord) (records : List RequestRecord)
    → match_prefix lower selector (some f) records ≡ ok (some r)
    → (f ≡ r) × (count_where (has_selector lower selector) records ≡ 0)
unfolding match_prefix count_where
match_prefix-some lower selector f r [] h = (some_inj (ok_inj h), refl)
match_prefix-some lower selector f r (q ∷ records) h =
    elim (Bool-cases (has_selector lower selector q)) [
      | inl hit ↦ err_and_ok (rw hit at h)
      | inr other ↦
          let (same, zero_more) = match_prefix-some lower selector f r records (rw other at h) in
          (same, rw other zero_more)
    ]

match_prefix-none :
    (lower : Bytes → Bytes) (selector : Bytes) (r : RequestRecord) (records : List RequestRecord)
    → match_prefix lower selector none records ≡ ok (some r)
    → (select_first (has_selector lower selector) records ≡ some r)
      × (count_where (has_selector lower selector) records ≡ 1)
unfolding match_prefix count_where select_first
match_prefix-none lower selector r [] h = cc
match_prefix-none lower selector r (q ∷ records) h =
    elim (Bool-cases (has_selector lower selector q)) [
      | inl hit ↦
          let (same, zero_more) = match_prefix-some lower selector q r records (rw hit at h) in
          (rw hit (ap some same), rw (hit, zero_more) (omega arith))
      | inr other ↦
          let (found, one) = match_prefix-none lower selector r records (rw other at h) in
          (rw other found, rw other one)
    ]

-- The one request that a prefix of four characters at least selects.
pub record Selected (lower : Bytes → Bytes) (selector : Bytes) (records : List RequestRecord)
    (id : Bytes) : Type 0 where
  pub selected : RequestRecord
  pub found : select_first (has_selector lower selector) records ≡ some selected
  pub only : count_where (has_selector lower selector) records ≡ 1
  pub same_id : selected.request_id ≡ id
  pub long : 4 ≤ length selector

-- A selector that is not empty selects an identifier only if it has four characters at least and is
-- the prefix, without regard to case, of exactly one listed request, whose identifier it is.
pub select_request-Selected :
    (lower : Bytes → Bytes) (atoi : Bytes → Option ℤ) (tty : Terminal) (selector : Bytes)
    (records : List RequestRecord) (id : Bytes)
    → is_empty selector ≡ false
    → select_request lower atoi tty selector (some records) ≡ ok id
    → Selected lower selector records id
unfolding select_request matched_id
select_request-Selected lower atoi tty selector [] id some_text h = err_and_ok h
select_request-Selected lower atoi tty selector (q ∷ records) id some_text h =
    elim (Bool-cases (ltb (length selector) 4)) [
      | inl short ↦ err_and_ok (rw (some_text, short) at h)
      | inr long ↦
          go (match_prefix lower selector none (q ∷ records)) refl (rw (some_text, long) at h)
            (ground arith)
    ]
  where
    go :
        (m : Result SelectError (Option RequestRecord))
        → match_prefix lower selector none (q ∷ records) ≡ m
        → matched_id m ≡ ok id
        → 4 ≤ length selector
        → Selected lower selector (q ∷ records) id
    go (err x) e g long = err_and_ok g
    go (ok none) e g long = err_and_ok g
    go (ok (some r)) e g long =
        let (found, one) = match_prefix-none lower selector r (q ∷ records) e in
        record { selected = r; found = found; only = one; same_id = ok_inj g; long = long }
