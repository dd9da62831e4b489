-- ===== src/State/Life/Serviced.antt =====
-- Tables that follow from others as the handlers of internal/daemon/service.go change them: only by
-- operations of the store that the machine of one request allows.
use shudo.Prelude.{◌≡◌, Bool, true, false, Option, Bytes, if◌then◌else◌}
use shudo.Model.{Status}
use shudo.State.Tables.{Codec, Tables}
use shudo.State.Requests.{store_transition, expire_outstanding}
use shudo.State.Startup.{record_security_event}
use shudo.State.History.{StoreOp, moves, expires, records, apply_op}
use shudo.State.Life.{is_gated, Steps, here, after, view, IsServiceOp}
use shudo.State.Life.Refines.{apply_op-Step}

-- Tables that follow from others by operations of the store as the service calls them.
pub data Serviced (c : Codec) : Tables → Tables → Type 0 where
  done : {t : Tables} → Serviced c t t
  after_op :
      {t u : Tables} (op : StoreOp)
      → IsServiceOp op
      → Serviced c (apply_op c op t) u
      → Serviced c t u

-- They are a run of the machine, for each request.
pub Serviced-Steps :
    (c : Codec) (id : Bytes) {t u : Tables} → Serviced c t u → Steps (view id t) (view id u)
Serviced-Steps c id done = here
Serviced-Steps c id (after_op {t} op s rest) =
    after (apply_op-Step c op id t s) (Serviced-Steps c id rest)

pub Serviced-trans : {c : Codec} {t u v : Tables} → Serviced c t u → Serviced c u v → Serviced c t v
Serviced-trans done q = q
Serviced-trans (after_op op s rest) q = after_op op s (Serviced-trans rest q)

pub one_op :
    {c : Codec} {t : Tables} (op : StoreOp) → IsServiceOp op → Serviced c t (apply_op c op t)
one_op op s = after_op op s done

-- A branch of a handler, whose result has its tables in `f`.
pub branch :
    {R : Type 0} (f : R → Tables) (c : Codec) (t : Tables) (b : Bool) (x y : R)
    → Serviced c t (f x)
    → Serviced c t (f y)
    → Serviced c t (f (if b then x else y))
branch f c t true x y p q = p
branch f c t false x y p q = q

pub expired-Serviced :
    (c : Codec) (now : Bytes) (t : Tables) → Serviced c t (expire_outstanding c now t)
unfolding apply_op
expired-Serviced c now t = one_op (expires now) tt

pub moved-Serviced :
    (c : Codec) (io : _) (id : Bytes) (next : Status) (expected : Option Status) (t : Tables)
    → is_gated next ≡ false
    → Serviced c t (store_transition c io id next expected t).1
unfolding apply_op
moved-Serviced c io id next expected t plain = one_op (moves io id next expected) plain

pub recorded-Serviced :
    (c : Codec) (kind id hash detail now : Bytes) (t : Tables)
    → Serviced c t (record_security_event kind id hash detail now t)
unfolding apply_op
recorded-Serviced c kind id hash detail now t = one_op (records kind id hash detail now) tt
