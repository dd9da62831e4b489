-- ===== src/State/Requests/Creation.antt =====
-- What `Create` did when it wrote.
use shudo.Prelude.{
  ◌+◌, ◌≡◌, refl, ◌⊎◌, inl, inr, true, false, Option, none, some, [], ◌∷◌, ◌++◌, Bytes, length,
  Bool-cases, ok, arith,
}
use shudo.Model.{ExecutionRequest}
use shudo.State.Sql.{exists_where}
use shudo.State.Tables.{Codec, Tables, of_request}
use shudo.State.Requests.{Disk, has_capacity, new_request, insert_request, create_raw, create}

pub record Created (c : Codec) (d : Disk) (q : ExecutionRequest) (hash : Bytes) (t t' : Tables)
    : Type 0 where
  pub raw : Bytes
  pub marshalled : c.marshal_request q ≡ some raw
  pub fits : has_capacity d (length raw + 4096) ≡ true
  pub fresh : exists_where (of_request q.request_id) t.requests ≡ false
  pub written : t' ≡ record t { requests = t.requests ++ new_request q hash raw ∷ [] }

pub create-cases :
    (c : Codec) (d : Disk) (q : ExecutionRequest) (hash : Bytes) (t : Tables)
    → ((create c d q hash t).1 ≡ t) ⊎ Created c d q hash t (create c d q hash t).1
unfolding create
create-cases c d q hash t = go (c.marshal_request q) refl
  where
    go :
        (m : Option Bytes)
        → c.marshal_request q ≡ m
        → ((create_raw d q hash m t).1 ≡ t) ⊎ Created c d q hash t (create_raw d q hash m t).1
    go none e = inl refl
    go (some raw) e = elim (Bool-cases (has_capacity d (length raw + 4096))) [
      | inr full ↦ inl (rw full)
      | inl fits ↦ elim (Bool-cases (exists_where (of_request q.request_id) t.requests)) [
        | inl taken ↦ inl (rw (fits, taken))
        | inr fresh ↦ inr (record {
          raw = raw;
          marshalled = e;
          fits = fits;
          fresh = fresh;
          written = rw (fits, fresh);
        })
      ]
    ]

-- A `Create` that returns no error has written.
pub create-ok :
    (c : Codec) (d : Disk) (q : ExecutionRequest) (hash : Bytes) (t : Tables)
    → (create c d q hash t).0 ≡ ok tt
    → Created c d q hash t (create c d q hash t).1
unfolding create create_raw insert_request
create-ok c d q hash t = go (c.marshal_request q) refl
  where
    go :
        (m : Option Bytes)
        → c.marshal_request q ≡ m
        → (create_raw d q hash m t).0 ≡ ok tt
        → Created c d q hash t (create_raw d q hash m t).1
    go none e h = cc
    go (some raw) e h = record {
      raw = raw;
      marshalled = e;
      fits = ground arith;
      fresh = ground arith;
      written = ground arith;
    }
