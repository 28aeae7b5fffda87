-- ===== src/App/Returns.antt =====
-- What holds of the value that a method of the service returns, by the guards that it has passed.
use codeallremote.Prelude.{String, Bool, true, false, ◌≡◌, refl, subst}
use codeallremote.Prelude.Result.{Result, ok, err}
use codeallremote.Domain.{Session}
use codeallremote.Domain.SessionState
use codeallremote.Session.Machine.{can_transition}
use codeallremote.App.State.{App, Outside, Clock, Method, pure, fail, bind_rest, ◌>>=◌, guard}
use codeallremote.App.Service.{RunHandle, Observed}
use codeallremote.App.Runs.{start_run, after_start}

module _ {A : Type 0} (Q : A → Type 0) where
  pub record Returns {E : Type 0} (m : Method E A) : Type 0 where
    pub apply : (app : App) (a : A) → (m app).0 ≡ ok a → Q a

  bound :
      {E B : Type 0} (f : B → Method E A) (q : Result E B × App)
      → ((b : B) → Returns (f b))
      → (a : A) → (bind_rest f q).0 ≡ ok a
      → Q a
  bound f (ok b, app) hf a h = (hf b).apply app a h
  bound f (err e, app) hf a h = cc

  bind-Returns :
      {E B : Type 0} (m : Method E B) (f : B → Method E A)
      → ((b : B) → Returns (f b))
      → Returns (m >>= f)
  unfolding ◌>>=◌
  bind-Returns m f hf = record { apply = λ app a h. bound f (m app) hf a h }

  passed :
      {E : Type 0} (b : Bool) (e : E) (f : Unit {0} → Method E A) (app : App)
      → (b ≡ true → Returns (f tt))
      → (a : A) → ((guard b e >>= f) app).0 ≡ ok a
      → Q a
  unfolding guard ◌>>=◌
  passed true e f app hf a h = (hf refl).apply app a h
  passed false e f app hf a h = cc

  guard-Returns :
      {E : Type 0} (b : Bool) (e : E) (f : Unit {0} → Method E A)
      → (b ≡ true → Returns (f tt))
      → Returns (guard b e >>= f)
  guard-Returns b e f hf = record { apply = λ app a h. passed b e f app hf a h }

  pure-Returns : {E : Type 0} (a : A) → Q a → Returns {E = E} (pure a)
  unfolding pure
  pure-Returns a q = record { apply = λ app b h. let e : a ≡ b = cc in subst Q e q }

  fail-Returns : {E : Type 0} (e : E) → Returns (fail e)
  unfolding fail
  fail-Returns e = record { apply = λ app a h. cc }

ruleset returns_rules = (guard-Returns, bind-Returns, pure-Returns, fail-Returns)

-- The session that the observer of a run is given can start.
abbrev pub CanStart : Observed → Type 0
CanStart o = can_transition o.session.state SessionState.starting ≡ true

module _ (outside : Outside) (clock : Clock) where
  after_start-CanStart :
      (actor id : String) (s : Session) (answer : Result String RunHandle)
      → can_transition s.state SessionState.starting ≡ true
      → Returns CanStart (after_start outside clock actor id s answer)
  unfolding after_start
  after_start-CanStart actor id s (ok handle) c = search returns_rules fits 4000 depth 60
  after_start-CanStart actor id s (err e) c = search returns_rules fits 4000 depth 60

  pub start_run-CanStart :
      (answer : Result String RunHandle) (actor id : String)
      → Returns CanStart (start_run outside clock answer actor id)
  unfolding start_run
  start_run-CanStart answer actor id =
      search (returns_rules, after_start-CanStart) fits 4000 depth 60
