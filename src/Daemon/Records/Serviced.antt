-- ===== src/Daemon/Records/Serviced.antt =====
-- `ListRequests` and a tick of `RunMaintenance` change the tables only by operations of the store
-- that the machine of one request allows.
use shudo.Prelude.{ℕ, Bool, true, false, Bytes, Result, ok, err, ℤ, pos, negsuc}
use shudo.Model.{Requester}
use shudo.State.Tables.{Codec, Tables}
use shudo.State.Requests.{TxIo, expire_outstanding}
use shudo.State.Retention.{prune_ids, prune_unapproved}
use shudo.State.History.{prunes, apply_op}
use shudo.State.Life.Serviced.{Serviced, done, Serviced-trans, one_op, expired-Serviced}
use shudo.Config.{Daemon}
use shudo.Daemon.Authority.{Peer, RpcError, root_requester}
use shudo.Daemon.Records.{Tick, expiry_tick, retention_tick, run_tick, list_as, list_requests}

pruned-Serviced :
    (c : Codec) (io : TxIo) (older_than : ℕ) (retain : ℤ) (t : Tables)
    → Serviced c t (prune_unapproved c io older_than retain t).1
unfolding prune_unapproved apply_op
pruned-Serviced c io older_than (negsuc n) t = done
pruned-Serviced c io older_than (pos retain) t =
    one_op (prunes io (prune_ids c older_than retain t)) tt

pub run_tick-Serviced :
    (c : Codec) (config : Daemon) (tick : Tick) (t : Tables)
    → Serviced c t (run_tick c config tick t)
unfolding run_tick
run_tick-Serviced c config (expiry_tick now) t = expired-Serviced c now t
run_tick-Serviced c config (retention_tick io older_than) t =
    pruned-Serviced c io older_than config.max_retained_unapproved t

module _ (quote : Bytes → Bytes) (c : Codec) (now : Bytes) (t : Tables) where
  list_as-Serviced :
      (history : Bool) (actor : Result RpcError Requester)
      → Serviced c t (list_as quote c now history actor t).1
  unfolding list_as shudo.State.Listing.recent_pending
  list_as-Serviced history (err e) = done
  list_as-Serviced true (ok actor) = expired-Serviced c now t
  list_as-Serviced false (ok actor) =
      Serviced-trans (expired-Serviced c now t)
        (expired-Serviced c now (expire_outstanding c now t))

  pub list_requests-Serviced :
      (peer : Peer) (history : Bool) → Serviced c t (list_requests quote c now peer history t).1
  unfolding list_requests
  list_requests-Serviced peer history = list_as-Serviced history (root_requester peer)
