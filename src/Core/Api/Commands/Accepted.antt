-- ===== src/Core/Api/Commands/Accepted.antt =====
-- What status 202 of `POST /internal/csms/*` promises: the charge point is sent a command that its
-- parser accepts.
use ocpp_simulator.Base.{
  ℤ, fits_int64, ◌≡◌, ◌≢◌, refl, String, true, inl, inr, List, Option, All, subst, arith,
  Bool-cases,
}
use ocpp_simulator.Result.{Result, ok, err, json_type, ◌>>=◌}
use ocpp_simulator.Result.Laws.{ok_inj}
use ocpp_simulator.Json.{Json, null, num, Bytes, json, junk}
use ocpp_simulator.Json.Unmarshal.{unmarshal, Setter, read_int, read_int_ptr, read_struct}
use ocpp_simulator.Json.Unmarshal.Keeps.{KeepsField, read_struct-keeps}
use ocpp_simulator.Schemas.{SchemaLibrary}
use ocpp_simulator.Csms as Csms
use ocpp_simulator.Csms.Understood.{
  Command, remote_start_command, action_of, FitsOption, Fits, Understood, Sent, send,
  send-Understood,
}
use ocpp_simulator.Core.Api.{
  Server, Backend, Response, Envelope, read_envelope, empty_envelope, with_arguments, with_request,
  handle_request,
}
use ocpp_simulator.Core.Api.Commands.{queued}

pub read_int-fits :
    (j : Json) (old n : ℤ) → fits_int64 old ≡ true → read_int j old ≡ ok n → fits_int64 n ≡ true
read_int-fits null old n h e = subst (λ k. fits_int64 k ≡ true) (ok_inj e) h
read_int-fits (num k) old n h e = ground arith
read_int-fits _ old n h e = cc

pub read_int_ptr-fits :
    (j : Json) (old o : Option ℤ) → FitsOption old → read_int_ptr j old ≡ ok o → FitsOption o
read_int_ptr-fits null old o h e = subst FitsOption (ok_inj e) tt
read_int_ptr-fits (num k) old o h e = elim (Bool-cases (fits_int64 k)) [
  | inl fits ↦ subst FitsOption (ok_inj (rw fits at e)) fits
  | inr large ↦ let bad : err json_type ≡ ok o = rw large at e in cc
]
read_int_ptr-fits _ old o h e = cc

-- A field's reader, seen as a read and a record update.
pub field-keeps :
    {A R : Type 0} (P : R → Type 0) (first : Result A) (set : A → R) (r' : R)
    → ((a : A) → first ≡ ok a → P (set a))
    → (first >>= λ v. ok (set v)) ≡ ok r'
    → P r'
field-keeps P (err e) set r' h done = cc
field-keeps P (ok a) set r' h done = subst P (ok_inj done) (h a refl)

-- An envelope has been read, and something holds of its charge point.
abbrev pub Addressed : Result Envelope → (String → Type 0) → Type 0
Addressed read P = (req : Envelope) × (read ≡ ok req) × P req.charge_point_id

module _ {R : Type 0} (P : R → Type 0) (fs : List (Setter R)) (zero : R)
    (next : String → R → Server → Response × Server) where
  abbrev ReachedNext : String → Server → Response × Server → Type 0
  ReachedNext id s answer = (r : R) × P r × (answer ≡ next id r s)

  with_arguments-accepted :
      (id : String) (arguments : Result R) (s : Server)
      → ((r : R) → arguments ≡ ok r → P r)
      → (with_arguments (read_struct fs) zero next id arguments s).0.status ≡ 202
      → ReachedNext id s (with_arguments (read_struct fs) zero next id arguments s)
  unfolding with_arguments
  with_arguments-accepted id (err e) s keeps accepted = absurd (omega arith)
  with_arguments-accepted id (ok r) s keeps accepted = (r, keeps r refl, refl)

  unmarshal-keeps :
      (payload : Bytes) (r : R)
      → All (KeepsField P) fs
      → P zero
      → unmarshal (read_struct fs) payload zero ≡ ok r
      → P r
  unmarshal-keeps (json j) r keeps start e = read_struct-keeps P fs j zero r keeps start e
  unmarshal-keeps (junk text) r keeps start e = cc

  with_request-accepted :
      (req : Result Envelope) (s : Server)
      → All (KeepsField P) fs
      → P zero
      → (with_request (read_struct fs) zero next req s).0.status ≡ 202
      → Addressed req (λ id. ReachedNext id s (with_request (read_struct fs) zero next req s))
  unfolding with_request
  with_request-accepted (err e) s keeps start accepted = absurd (omega arith)
  with_request-accepted (ok req) s keeps start accepted = (
    req,
    refl,
    with_arguments-accepted req.charge_point_id (unmarshal (read_struct fs) req.payload zero) s
        (λ r e. unmarshal-keeps req.payload r keeps start e) accepted,
  )

  -- An answer 202 comes from behind the two decoders.
  pub handle_request-accepted :
      (body : Bytes) (s : Server)
      → All (KeepsField P) fs
      → P zero
      → (handle_request (read_struct fs) zero next body s).0.status ≡ 202
      → Addressed
          (unmarshal read_envelope body empty_envelope)
          (λ id. ReachedNext id s (handle_request (read_struct fs) zero next body s))
  unfolding handle_request
  handle_request-accepted body s keeps start accepted =
      with_request-accepted _ s keeps start accepted

module _ (library : SchemaLibrary) (env : Backend) where
  -- A RemoteStartTransaction names a tag.
  abbrev pub HasTag : Command → Type 0
  HasTag (remote_start_command t c) = t ≢ ""
  HasTag _ = Unit

  -- The state of the server behind a command that was sent: one frame more for the charge point,
  -- which its parser takes for the command; transactions and events are as they were.
  abbrev pub IsQueued : String → Server → Server → String → Type 0
  IsQueued action s s' id =
      (c : Command) × (action_of c ≡ action)
      × HasTag c
      × Sent library env.command id action (Understood c) s.commands s'.commands
      × (s'.transactions ≡ s.transactions)
      × (s'.events ≡ s.events)

  queued-accepted :
      (x : Result (Unit {0}) × Csms.Service) (s : Server)
      → (queued library env x s).0.status ≡ 202
      → (x.0 ≡ ok tt) × ((queued library env x s).1 ≡ record s { commands = x.1 })
  unfolding queued
  queued-accepted (err e, c) s accepted = absurd (omega arith)
  queued-accepted (ok done, c) s accepted = (refl, refl)

  pub send-IsQueued :
      (c : Command) (id : String) (s : Server)
      → HasTag c
      → Fits c
      → (queued library env (send library env.command c id s.commands) s).0.status ≡ 202
      → IsQueued
          (action_of c)
          s
          (queued library env (send library env.command c id s.commands) s).1
          id
  send-IsQueued c id s tagged fits accepted =
      let (done, left) = queued-accepted (send library env.command c id s.commands) s accepted in
      rw left
        (c, refl, tagged, send-Understood library env.command c id s.commands fits done, refl, refl)
