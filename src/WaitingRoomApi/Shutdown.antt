-- ===== src/WaitingRoomApi/Shutdown.antt =====
-- cmd/waiting-room-api/main.go: the order of the shutdown, and the publishes it waits for.
use flashsale_reservation.Prelude.{
  ℕ, suc, ◌<◌, ◌≡◌, ◌≢◌, ◌⊎◌, inl, inr, refl, sym, subst, Bool, true, false, arith,
}

-- How far main is: serving, in srv.Shutdown, in registry.Shutdown, in publishWG.Wait, or returned,
-- with the writer closed by its deferred call.
pub data Phase : Type 0 where
  serving stopping_http stopping_admitters awaiting_publishes returned : Phase

-- The handlers at work, the publishes in the background that publishWG counts, the admitters' loops,
-- and whether the ten seconds of srv.Shutdown ran out.
pub record Process : Type 0 where
  pub phase : Phase
  pub handlers : ℕ
  pub publishes : ℕ
  pub admitters : ℕ
  pub timed_out : Bool

-- A step of any goroutine. Only a handler starts a publish, and `Add` precedes the goroutine.
pub data Step : Process → Process → Type 0 where
  request_arrives :
      (p : Process) → p.phase ≡ serving → Step p (record p { handlers = suc p.handlers })
  admitter_starts :
      (p : Process) → 0 < p.handlers → Step p (record p { admitters = suc p.admitters })
  publish_starts :
      (p : Process) → 0 < p.handlers → Step p (record p { publishes = suc p.publishes })
  publish_ends : (p : Process) (n : ℕ) → p.publishes ≡ suc n → Step p (record p { publishes = n })
  handler_returns : (p : Process) (n : ℕ) → p.handlers ≡ suc n → Step p (record p { handlers = n })
  context_ends : (p : Process) → p.phase ≡ serving → Step p (record p { phase = stopping_http })
  admitter_exits :
      (p : Process) (n : ℕ)
      → p.phase ≢ serving
      → p.admitters ≡ suc n
      → Step p (record p { admitters = n })
  http_stopped :
      (p : Process)
      → p.phase ≡ stopping_http
      → p.handlers ≡ 0
      → Step p (record p { phase = stopping_admitters })
  http_times_out :
      (p : Process)
      → p.phase ≡ stopping_http
      → Step p (record p { phase = stopping_admitters; timed_out = true })
  admitters_stopped :
      (p : Process)
      → p.phase ≡ stopping_admitters
      → p.admitters ≡ 0
      → Step p (record p { phase = awaiting_publishes })
  publishes_done :
      (p : Process)
      → p.phase ≡ awaiting_publishes
      → p.publishes ≡ 0
      → Step p (record p { phase = returned })

pub data Steps : Process → Process → Type 0 where
  here : (p : Process) → Steps p p
  then : (p q r : Process) → Step p q → Steps q r → Steps p r

abbrev pub started : Process
started = record { phase = serving; handlers = 0; publishes = 0; admitters = 0; timed_out = false }

-- Where main stands, of the handlers and publishes nothing is left that it has waited for.
abbrev pub Waited : Phase → ℕ → ℕ → Type 0
Waited serving handlers publishes = Unit {0}
Waited stopping_http handlers publishes = Unit {0}
Waited stopping_admitters handlers publishes = handlers ≡ 0
Waited awaiting_publishes handlers publishes = handlers ≡ 0
Waited returned handlers publishes = (handlers ≡ 0) × (publishes ≡ 0)

-- That holds unless srv.Shutdown timed out.
abbrev pub IsOrderly : Process → Type 0
IsOrderly p = (p.timed_out ≡ true) ⊎ Waited p.phase p.handlers p.publishes

Waited-publish_starts : (f : Phase) (h n : ℕ) → 0 < h → Waited f h n → Waited f h (suc n)
Waited-publish_starts serving h n busy w = tt
Waited-publish_starts stopping_http h n busy w = tt
Waited-publish_starts stopping_admitters h n busy w = w
Waited-publish_starts awaiting_publishes h n busy w = w
Waited-publish_starts returned h n busy (w, _) = absurd (omega (arith, w))

Waited-publish_ends : (f : Phase) (h m n : ℕ) → m ≡ suc n → Waited f h m → Waited f h n
Waited-publish_ends serving h m n e w = tt
Waited-publish_ends stopping_http h m n e w = tt
Waited-publish_ends stopping_admitters h m n e w = w
Waited-publish_ends awaiting_publishes h m n e w = w
Waited-publish_ends returned h m n e (_, w) = absurd (omega (arith, e, w))

Waited-handler_returns : (f : Phase) (k h n : ℕ) → k ≡ suc h → Waited f k n → Waited f h n
Waited-handler_returns serving k h n e w = tt
Waited-handler_returns stopping_http k h n e w = tt
Waited-handler_returns stopping_admitters k h n e w = absurd (omega (arith, e, w))
Waited-handler_returns awaiting_publishes k h n e w = absurd (omega (arith, e, w))
Waited-handler_returns returned k h n e (w, _) = absurd (omega (arith, e, w))

in_phase :
    (p : Process) (f : Phase)
    → p.phase ≡ f
    → Waited p.phase p.handlers p.publishes
    → Waited f p.handlers p.publishes
in_phase p f e w = subst (λ g. Waited g p.handlers p.publishes) e w

Step-IsOrderly : (p q : Process) → Step p q → IsOrderly p → IsOrderly q
Step-IsOrderly p q (context_ends _ e) h = inr tt
Step-IsOrderly p q (http_times_out _ e) h = inl refl
Step-IsOrderly p q (http_stopped _ e none_left) h = inr none_left
Step-IsOrderly p q (admitter_starts _ busy) h = h
Step-IsOrderly p q (admitter_exits _ n off e) h = h
Step-IsOrderly p q (request_arrives _ e) h =
    inr (subst (λ f. Waited f (suc p.handlers) p.publishes) (sym e) tt)
Step-IsOrderly p q (publish_starts _ busy) (inl late) = inl late
Step-IsOrderly p q (publish_starts _ busy) (inr w) =
    inr (Waited-publish_starts p.phase p.handlers p.publishes busy w)
Step-IsOrderly p q (publish_ends _ n e) (inl late) = inl late
Step-IsOrderly p q (publish_ends _ n e) (inr w) =
    inr (Waited-publish_ends p.phase p.handlers p.publishes n e w)
Step-IsOrderly p q (handler_returns _ n e) (inl late) = inl late
Step-IsOrderly p q (handler_returns _ n e) (inr w) =
    inr (Waited-handler_returns p.phase p.handlers n p.publishes e w)
Step-IsOrderly p q (admitters_stopped _ e none_left) (inl late) = inl late
Step-IsOrderly p q (admitters_stopped _ e none_left) (inr w) =
    inr (in_phase p stopping_admitters e w)
Step-IsOrderly p q (publishes_done _ e none_left) (inl late) = inl late
Step-IsOrderly p q (publishes_done _ e none_left) (inr w) =
    inr (in_phase p awaiting_publishes e w, none_left)

Steps-IsOrderly : (p q : Process) → Steps p q → IsOrderly p → IsOrderly q
Steps-IsOrderly p q (here _) h = h
Steps-IsOrderly p q (then _ m _ first rest) h =
    Steps-IsOrderly m q rest (Step-IsOrderly p m first h)

-- The writer is closed last: in whatever order handlers, publishes, admitters and main take their
-- steps, when main has returned and closed the writer, no handler is at work and no publish is in
-- flight, unless srv.Shutdown had timed out.
pub writer_closes_last :
    (p : Process)
    → Steps started p
    → p.phase ≡ returned
    → p.timed_out ≡ false
    → (p.handlers ≡ 0) × (p.publishes ≡ 0)
writer_closes_last p steps e in_time = elim (Steps-IsOrderly started p steps (inr tt)) [
  | inl late ↦ absurd (ground arith)
  | inr w ↦ in_phase p returned e w
]
