-- ===== src/World/Exec.antt =====
-- Actions that may raise, with Python's `try`, and the primitive calls. What was written before a
-- raise stays written.
use ared_edge_iota_anchor.Prelude.{
  ℕ, suc, ◌+◌, ◌-◌, ◌*◌, Bool, true, false, Result, ok, err, Exception, database_error,
  if◌then◌else◌,
}
use ared_edge_iota_anchor.World.Types.{World, Tables, Env, Exec, Request, Reply}

abbrev pub pure {ℓ} : {A : Type ℓ} → A → Exec A
pure a w = (ok a, w)

abbrev pub raise {ℓ} : {A : Type ℓ} → Exception → Exec A
raise e w = (err e, w)

abbrev pub lift {ℓ} : {A : Type ℓ} → Result A → Exec A
lift r w = (r, w)

module _ {A B : Type 0} where
  abbrev pub continue : Result A → (A → Exec B) → Exec B
  continue (ok a) f w = f a w
  continue (err e) f w = (err e, w)

  infixl 5 ◌>>=◌ ◌>>◌
  abbrev pub ◌>>=◌ : Exec A → (A → Exec B) → Exec B
  ◌>>=◌ m f w = let (r, w') = m w in continue r f w'

  abbrev pub ◌>>◌ : Exec A → Exec B → Exec B
  m >> k = m >>= λ _. k

module _ {A : Type 0} where
  abbrev pub rescue : Result A → (Exception → Exec A) → Exec A
  rescue (ok a) handler w = (ok a, w)
  rescue (err e) handler w = handler e w

  -- `try: m except ...`: the handler raises again what it does not catch.
  abbrev pub try_except : Exec A → (Exception → Exec A) → Exec A
  try_except m handler w = let (r, w') = m w in rescue r handler w'

  abbrev pub conclude : Result A → Result (Unit {0}) → Result A
  conclude r (ok _) = r
  conclude r (err e) = err e

  -- `try: m finally: cleanup`: an exception of the cleanup replaces the result.
  abbrev pub finally : Exec A → Exec (Unit {0}) → Exec A
  finally m cleanup w = let (r, w') = m w in let (r', w'') = cleanup w' in (conclude r r', w'')

abbrev pub gets : {A : Type 0} → (World → A) → Exec A
gets f w = (ok (f w), w)

abbrev pub modify : (World → World) → Exec (Unit {0})
modify f w = (ok tt, f w)

-- `datetime.utcnow()` and the event loop's clock.
abbrev pub utcnow : Exec ℕ
utcnow = gets (λ w. w.now)

-- A number of seconds.
abbrev pub seconds : ℕ → ℕ
seconds n = n * 1000000

-- Time that passes.
abbrev pub passed : ℕ → World → World
passed d w = record w { now = w.now + d }

module _ (env : Env) where
  -- A call of the outside takes its time.
  abbrev pub tick : World → World
  tick w = record w { calls = suc w.calls; now = w.now + env.took w.calls }

  unfoldable pub sleep : ℕ → Exec (Unit {0})
  sleep d w = (ok tt, tick (passed d w))

  unfoldable pub request : Request → Exec Reply
  request r w = (ok (env.reply w.calls r), tick w)

  unfoldable pub uuid4 : Exec ℕ
  uuid4 w = (ok (env.uuid4 w.draws), record w { draws = suc w.draws })

  -- `session.execute`: a function of the tables that may itself raise.
  unfoldable pub execute : {A : Type 0} → (Tables → Result A × Tables) → Exec A
  execute query w =
      if env.fault w.calls
      then (err database_error, tick w)
      else (let (r, t) = query w.tables in (r, record (tick w) { tables = t }))

  unfoldable pub commit : Exec (Unit {0})
  commit w =
      if env.fault w.calls
      then (err database_error, tick w)
      else (ok tt, record (tick w) { committed = w.tables })

  -- `SELECT pg_try_advisory_lock`: a session may take its own lock again.
  unfoldable pub try_advisory_lock : Exec Bool
  try_advisory_lock w =
      if env.fault w.calls
      then (err database_error, tick w)
      else if env.other_holds w.calls
      then (ok false, tick w)
      else (ok true, record (tick w) { lock_count = suc w.lock_count })

  unfoldable pub advisory_unlock : Exec (Unit {0})
  advisory_unlock w =
      if env.fault w.calls
      then (err database_error, tick w)
      else (ok tt, record (tick w) { lock_count = w.lock_count - 1 })

-- The end of `async with async_session_factory()`: what is not committed is rolled back.
unfoldable pub with_session : {A : Type 0} → Exec A → Exec A
with_session m w =
    let (r, w') = m (record w { tables = w.committed }) in (r, record w' { tables = w'.committed })
