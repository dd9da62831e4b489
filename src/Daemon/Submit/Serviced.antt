-- ===== src/Daemon/Submit/Serviced.antt =====
-- `Submit` changes the tables only by operations of the store that the machine of one request allows.
use shudo.Prelude.{◌≡◌, refl, Bool, true, false, some, Bytes, Result, ok, err, arith}
use shudo.Model.{Requester, created}
use shudo.State.Tables.{Tables}
use shudo.State.Requests.{Outcome, create, expire_outstanding}
use shudo.State.History.{creates, apply_op}
use shudo.State.Life.{is_gated}
use shudo.Daemon.Authority.{Peer, RpcError, requester}
use shudo.Daemon.Limits.{Limits}
use shudo.Daemon.Submission.{SubmitRequest, SubmitError, validate_submit}
use shudo.Daemon.Submit.{
  SubmitEnv, SubmitResponse, Prepared, Service, prepare_request, first_status, submit_moved,
  submit_created, submit_prepared, submit_admitted, submit_limited, submit_valid, submit_as, submit,
  too_many,
}
use shudo.State.Life.Serviced.{
  Serviced, done, Serviced-trans, one_op, branch, expired-Serviced, moved-Serviced,
}

module _ (e : SubmitEnv) where
  submit_moved-tables : (p : Prepared) (o : Outcome) → (submit_moved e p o).1 ≡ o.1
  unfolding submit_moved
  submit_moved-tables p (err x, t) = refl
  submit_moved-tables p (ok u, t) = refl

  first_status-plain : (action : Bytes) → is_gated (first_status action) ≡ false
  unfolding is_gated
  first_status-plain action = ground arith

  submit_created-Serviced :
      (p : Prepared) (o : Outcome) → Serviced e.codec o.1 (submit_created e p o).1
  unfolding submit_created
  submit_created-Serviced p (err x, t) = done
  submit_created-Serviced p (ok u, t) = rw (submit_moved-tables p _) (
      moved-Serviced e.codec e.io p.request.request_id (first_status p.action) (some created) t
        (first_status-plain p.action))

  submit_prepared-Serviced :
      (uid : _) (r : Result RpcError Prepared) (t : Tables)
      → Serviced e.codec t (submit_prepared e uid r t).1
  unfolding submit_prepared apply_op
  submit_prepared-Serviced uid (err x) t = done
  submit_prepared-Serviced uid (ok p) t =
      branch (λ (r : Result RpcError SubmitResponse × Tables). r.1) e.codec t (too_many e uid t) _ _
        done
        (Serviced-trans (one_op (creates e.disk p.request p.hash) tt)
          (submit_created-Serviced p (create e.codec e.disk p.request p.hash t)))

  submit_admitted-Serviced :
      (actor : Requester) (input : SubmitRequest) (t : Tables)
      → Serviced e.codec t (submit_admitted e actor input t).1
  unfolding submit_admitted
  submit_admitted-Serviced actor input t =
      let t' = expire_outstanding e.codec e.now_text t in
      Serviced-trans (expired-Serviced e.codec e.now_text t) (
        branch (λ (r : Result RpcError SubmitResponse × Tables). r.1) e.codec t'
          (too_many e actor.uid t') _ _ done
          (submit_prepared-Serviced actor.uid (prepare_request e actor input) t'))

  submit_limited-Serviced :
      (actor : Requester) (input : SubmitRequest) (t : Tables) (l : Limits × Bool)
      → Serviced e.codec t (submit_limited e actor input t l).1.tables
  unfolding submit_limited
  submit_limited-Serviced actor input t (l, false) = done
  submit_limited-Serviced actor input t (l, true) = submit_admitted-Serviced actor input t

  submit_valid-Serviced :
      (actor : Requester) (input : SubmitRequest) (s : Service) (v : Result SubmitError (Unit {0}))
      → Serviced e.codec s.tables (submit_valid e actor input s v).1.tables
  unfolding submit_valid
  submit_valid-Serviced actor input s (err x) = done
  submit_valid-Serviced actor input s (ok u) = submit_limited-Serviced actor input s.tables _

  submit_as-Serviced :
      (r : Result RpcError Requester) (input : SubmitRequest) (s : Service)
      → Serviced e.codec s.tables (submit_as e r input s).1.tables
  unfolding submit_as
  submit_as-Serviced (err x) input s = done
  submit_as-Serviced (ok actor) input s =
      submit_valid-Serviced actor input s (validate_submit input)

  pub submit-Serviced :
      (peer : Peer) (input : SubmitRequest) (s : Service)
      → Serviced e.codec s.tables (submit e peer input s).1.tables
  unfolding submit
  submit-Serviced peer input s = submit_as-Serviced (requester peer) input s
