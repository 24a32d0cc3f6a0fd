-- ===== src/EventLog/Chain.antt =====
-- The hash chain: what appending keeps, and what a valid log's last hash fixes.
use mathlib.Core.Option.{some-injective}
use gateloop.Base.{
  ℕ, suc, ◌+◌, String, Bool, true, false, Option, none, some, List, [], ◌∷◌, ◌++◌, ◌≡◌, refl, sym,
  ap, ◌∙◌, ◌↔◌, arith, length, eq_iff, ==_iff, Memᴰ, subst,
}
use gateloop.EventLog.{
  Body, TraceEvent, EventArgs, ChainError, same_hash, report, validate_from, validate_trace_event,
  last_event, next_seq, next_previous, create_trace_event, append_next_event,
}

same_hash_iff : (a b : Option String) → (same_hash a b ≡ true) ↔ (a ≡ b)
same_hash_iff none none = ((λ _. refl), (λ _. refl))
same_hash_iff none (some b) = ((λ h. cc), (λ h. cc))
same_hash_iff (some a) none = ((λ h. cc), (λ h. cc))
same_hash_iff (some a) (some b) =
    ((λ h. ap some ((eq_iff a b).0 h)), (λ h. (eq_iff a b).1 (some-injective a b h)))

module _ {Payload : Type 0} (hash_event : Body Payload → String) where
  -- The event has its place's number, links to the hash before it, and carries its own.
  pub record Linked (i : ℕ) (prev : Option String) (e : TraceEvent Payload) : Type 0 where
    pub numbered : e.body.seq ≡ i
    pub links : e.body.previous_event_hash ≡ prev
    pub hashed : e.hash ≡ some (hash_event e.body)

  abbrev pub Chained : ℕ → Option String → List (TraceEvent Payload) → Type 0
  Chained i prev [] = Unit
  Chained i prev (e ∷ events) = Linked i prev e × Chained (suc i) e.hash events

  reports_nothing :
      (a b c : Bool) (x y z : ChainError) (rest : List ChainError)
      → ((report a x ++ (report b y ++ report c z)) ++ rest) ≡ []
      → (a ≡ true) × (b ≡ true) × (c ≡ true) × (rest ≡ [])
  reports_nothing true true true x y z rest h = (refl, refl, refl, h)
  reports_nothing true true false x y z rest h = cc
  reports_nothing true false c x y z rest h = cc
  reports_nothing false b c x y z rest h = cc

  -- The validation reports nothing exactly when every event has the number of its place, links to the
  -- hash of the event before it, and carries its own hash.
  pub validate_iff :
      (i : ℕ) (prev : Option String) (events : List (TraceEvent Payload))
      → (validate_from hash_event i prev events ≡ []) ↔ Chained i prev events
  unfolding validate_from
  validate_iff i prev [] = ((λ _. tt), (λ _. refl))
  validate_iff i prev (e ∷ events) =
      let ih = validate_iff (suc i) e.hash events in
      let links = same_hash_iff e.body.previous_event_hash prev in
      let hashed = same_hash_iff e.hash (some (hash_event e.body)) in
      (
        (λ h.
            let (a, b, c, rest) = reports_nothing _ _ _ _ _ _ _ h in
            (
              record {
                numbered = (==_iff e.body.seq i).0 a;
                links = links.0 b;
                hashed = hashed.0 c;
              },
              ih.0 rest,
            )),
        (λ (l, rest).
            rw
              (
                validate_from,
                (==_iff e.body.seq i).1 l.numbered,
                links.1 l.links,
                hashed.1 l.hashed,
                ih.1 rest,
              )
              refl),
      )

  -- The hash at the end of a log, with the one before it for an empty log.
  abbrev pub end_hash : Option String → List (TraceEvent Payload) → Option String
  end_hash prev [] = prev
  end_hash prev (e ∷ events) = end_hash e.hash events

  -- No event of the one log has the hash of a different event of the other.
  abbrev pub NoCollision : List (TraceEvent Payload) → List (TraceEvent Payload) → Type 0
  NoCollision events others =
      (e f : TraceEvent Payload)
      → Memᴰ e events
      → Memᴰ f others
      → hash_event e.body ≡ hash_event f.body
      → e.body ≡ f.body

  same_chain :
      (i j : ℕ) (p q : Option String) (events others : List (TraceEvent Payload))
      → NoCollision events others
      → Chained i p events
      → Chained j q others
      → length events ≡ length others
      → end_hash p events ≡ end_hash q others
      → (events ≡ others) × (p ≡ q)
  same_chain i j p q [] [] inj v w l h = (refl, h)
  same_chain i j p q [] (f ∷ others) inj v w l h = absurd (omega arith)
  same_chain i j p q (e ∷ events) [] inj v w l h = absurd (omega arith)
  same_chain i j p q (e ∷ events) (f ∷ others) inj (v, vs) (w, ws) l h =
      let (tails, heads) =
        same_chain (suc i) (suc j) e.hash f.hash events others
          (λ a b m n. inj a b (Memᴰ.tail m) (Memᴰ.tail n)) vs ws (omega arith) h in
      let hashes : some (hash_event e.body) ≡ some (hash_event f.body) =
        sym v.hashed ∙ heads ∙ w.hashed in
      let bodies : e.body ≡ f.body =
        inj e f (Memᴰ.head refl) (Memᴰ.head refl) (some-injective _ _ hashes) in
      let whole : e ≡ f = ap2_event bodies heads in
      (
        ap (λ x. x ∷ events) whole ∙ ap (λ xs. f ∷ xs) tails,
        sym v.links ∙ ap (λ (b : Body Payload). b.previous_event_hash) bodies ∙ w.links,
      )
    where
      ap2_event : {a b : TraceEvent Payload} → a.body ≡ b.body → a.hash ≡ b.hash → a ≡ b
      ap2_event {a} {b} m n =
          ap (λ x. record { body = x; hash = a.hash }) m
          ∙ ap (λ x. record { body = b.body; hash = x }) n

  -- Two logs of the same length that both validate and end in the same hash are the same, unless an
  -- event of the one has the hash of a different event of the other: no past event can be changed
  -- under a known last hash without a collision.
  pub tamper_evident :
      (events others : List (TraceEvent Payload))
      → NoCollision events others
      → validate_trace_event hash_event events ≡ []
      → validate_trace_event hash_event others ≡ []
      → length events ≡ length others
      → end_hash none events ≡ end_hash none others
      → events ≡ others
  tamper_evident events others inj v w l h =
      (same_chain 0 0 none none events others inj ((validate_iff 0 none events).0 v)
        ((validate_iff 0 none others).0 w) l h).0

  last-Chained :
      (i : ℕ) (p : Option String) (e : TraceEvent Payload) (events : List (TraceEvent Payload))
      → Chained i p (e ∷ events)
      → (x : TraceEvent Payload) × (last_event hash_event (e ∷ events) ≡ some x)
        × (x.body.seq + 1 ≡ i + suc (length events))
        × (x.hash ≡ end_hash p (e ∷ events))
  last-Chained i p e [] (v, vs) = (e, refl, omega (arith, v.numbered), refl)
  last-Chained i p e (f ∷ events) (v, vs) =
      let (x, l, n, h) = last-Chained (suc i) e.hash f events vs in (x, l, omega arith, h)

  Chained-append :
      (i : ℕ) (p : Option String) (events : List (TraceEvent Payload)) (x : TraceEvent Payload)
      → Chained i p events
      → Linked (i + length events) (end_hash p events) x
      → Chained i p (events ++ x ∷ [])
  Chained-append i p [] x v w = (subst (λ k. Linked k p x) (omega arith) w, tt)
  Chained-append i p (e ∷ events) x (v, vs) w = (
    v,
    Chained-append (suc i) e.hash events x vs
        (subst (λ k. Linked k (end_hash e.hash events) x) (omega arith) w),
  )

  module _ (redact : Payload → Payload) (empty_payload : Payload) where
    -- Appending the next event to a log that validates gives a log that validates, and that has one
    -- event more after the ones it had.
    pub append-keeps_chain :
        (existing : List (TraceEvent Payload)) (args : EventArgs Payload)
        → validate_trace_event hash_event existing ≡ []
        → (validate_trace_event hash_event
              (append_next_event hash_event redact empty_payload existing args)
            ≡ [])
          × ((e : TraceEvent Payload) × (append_next_event hash_event redact empty_payload existing
                  args
                ≡ existing ++ e ∷ []))
    unfolding append_next_event
    append-keeps_chain existing args v =
        let made : TraceEvent Payload =
          create_trace_event hash_event redact empty_payload args
            (next_seq hash_event (last_event hash_event existing))
            (next_previous hash_event (last_event hash_event existing)) in
        let chained = (validate_iff 0 none existing).0 v in
        (
          (validate_iff 0 none (existing ++ made ∷ [])).1
              (Chained-append 0 none existing made chained (linked existing chained)),
          (made, refl),
        )
      where
        linked :
            (events : List (TraceEvent Payload))
            → Chained 0 none events
            → Linked (0 + length events) (end_hash none events) (
                create_trace_event hash_event redact empty_payload args
                  (next_seq hash_event (last_event hash_event events))
                  (next_previous hash_event (last_event hash_event events)))
        linked [] c = record { numbered = omega arith; links = refl; hashed = refl }
        linked (e ∷ events) c =
            let (x, l, n, h) = last-Chained 0 none e events c in
            record {
              numbered = ap (next_seq hash_event) l ∙ n;
              links = ap (next_previous hash_event) l ∙ h;
              hashed = refl;
            }
