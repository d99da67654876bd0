-- ===== src/Store/Monad.antt =====
-- A handler's run: state, early `return` of the handler's answer, and exceptions. Inside
-- `prisma.$transaction` an exception rolls the database back; an early return commits.
use bidvault_backend.Common.{Bool, Option, none, some, [], ◌∷◌, ◌++◌, if◌then◌else◌}
use bidvault_backend.Store.Notices.{Notification, AuditLog, Effect}
use bidvault_backend.Store.State.{World}

pub data Flow (R A : Type 0) : Type 0 where
  next : A → Flow R A
  answer : R → Flow R A
  threw : Flow R A

abbrev pub Tx : Type 0 → Type 0 → Type 0
Tx R A = World → Flow R A × World

module _ {R A : Type 0} where
  abbrev pub pure : A → Tx R A
  pure a w = (next a, w)

  -- an early `return`
  abbrev pub return : R → Tx R A
  return r w = (answer r, w)

  abbrev pub throw : Tx R A
  throw w = (threw, w)

  abbrev pub gets : (World → A) → Tx R A
  gets f w = (next (f w), w)

  -- `if (!row) return r;`
  abbrev pub require : Option A → R → Tx R A
  require none r = return r
  require (some a) r = pure a

  -- `findUniqueOrThrow`
  abbrev pub or_throw : Option A → Tx R A
  or_throw none = throw
  or_throw (some a) = pure a

infixl 5 ◌>>=◌ ◌>>◌
abbrev pub ◌>>=◌ : {R A B : Type 0} → Tx R A → (A → Tx R B) → Tx R B
◌>>=◌ m f w =
    let (r, w') = m w in
    elim r [ next a ↦ f a w' | answer r ↦ (answer r, w') | threw ↦ (threw, w') ]

abbrev pub ◌>>◌ : {R A B : Type 0} → Tx R A → Tx R B → Tx R B
m >> k = m >>= λ _. k

module _ {R : Type 0} where
  -- `if (c) return r;`
  abbrev pub return_if : Bool → R → Tx R (Unit {0})
  return_if c r w = (if c then answer r else next tt, w)

  abbrev pub throw_if : Bool → Tx R (Unit {0})
  throw_if c w = (if c then threw else next tt, w)

  abbrev pub modify : (World → World) → Tx R (Unit {0})
  modify f w = (next tt, f w)

  -- `tx.notification.create`
  abbrev pub notify : Notification → Tx R (Unit {0})
  notify n w = (next tt, record w { notifications = w.notifications ++ n ∷ [] })

  abbrev pub audit : AuditLog → Tx R (Unit {0})
  audit l w = (next tt, record w { audit_logs = w.audit_logs ++ l ∷ [] })

  -- `dispatchEmail`, `io.emit` and the calls of the job queue
  abbrev pub send : Effect → Tx R (Unit {0})
  send e w = (next tt, record w { effects = w.effects ++ e ∷ [] })

-- `prisma.$transaction`: nothing is written when the body throws.
abbrev pub transaction : {R A : Type 0} → Tx R A → Tx R A
transaction m w =
    let (r, w') = m w in
    elim r [ next a ↦ (next a, w') | answer r ↦ (answer r, w') | threw ↦ (threw, w) ]
