-- ===== src/Worker/Rules.antt =====
-- Rules for the stages of a job: what a stage keeps of the world, and whether it comes to an end.
use restore_engine.Common.{ℕ, String, ◌≡◌, Bool, true, false, List, ◌∷◌, if◌then◌else◌}
use restore_engine.States.{RestoreState}
use restore_engine.Jobs.{Hash}
use restore_engine.Worker.{
  Answer, answered, refused, ApiRequest, start_vm, Host, World, Result, done, task_cancelled,
  timed_out, error, unfinished, M, continue, ◌>>=◌, pure, raise, asks, or_raise, when_so,
  send_request, pause, write, write_with, say, move_to, cancel,
}
use restore_engine.Worker.Job.{
  JobEnding, stopped, after_wait, on_cancel, info, fresh_ticks, prefixed,
}

-- `G` holds of the requests that were sent, and `R` if the rounds were used up.
abbrev pub Post :
    {C A : Type 0} → (List (ApiRequest × C) → Type 0) → Type 0 → World C × Result A → Type 0
Post G R (w, done a) = G w.sent
Post G R (w, task_cancelled) = G w.sent
Post G R (w, timed_out msg) = G w.sent
Post G R (w, error msg) = G w.sent
Post G R (w, unfinished) = G w.sent × R

pub record Meets {C A : Type 0} (G : List (ApiRequest × C) → Type 0) (R : Type 0) (m : M C A)
    : Type 0 where
  pub at : (w : World C) → G w.sent → Post G R (m w)

-- The requests that start a guest.
abbrev pub starts : ApiRequest → Bool
starts (start_vm node vmid) = true
starts _ = false

module _ {C : Type 0} {G : List (ApiRequest × C) → Type 0} {R : Type 0} where
  module _ {A : Type 0} where
    pub Meets-pure : (a : A) → Meets G R (pure a)
    unfolding pure
    Meets-pure a = record { at = λ w g. g }

    pub Meets-raise : (msg : String) → Meets G R (raise {A = A} msg)
    unfolding raise
    Meets-raise msg = record { at = λ w g. g }

    pub Meets-asks : (f : World C → A) → Meets G R (asks f)
    unfolding asks
    Meets-asks f = record { at = λ w g. g }

    pub Meets-or_raise : (a : Answer A) → Meets G R (or_raise a)
    unfolding or_raise
    Meets-or_raise (answered a) = record { at = λ w g. g }
    Meets-or_raise (refused msg) = record { at = λ w g. g }

    pub Meets-if :
        (b : Bool) (m n : M C A) → Meets G R m → Meets G R n → Meets G R (if b then m else n)
    Meets-if true m n km kn = km
    Meets-if false m n km kn = kn

  pub Meets-when_so : (b : Bool) (m : M C (Unit {0})) → Meets G R m → Meets G R (when_so b m)
  unfolding when_so pure
  Meets-when_so true m km = km
  Meets-when_so false m km = record { at = λ w g. g }

  module _ {A B : Type 0} where
    pub Post-continue :
        (x : World C × Result A) (f : A → M C B)
        → Post G R x
        → ((a : A) → Meets G R (f a))
        → Post G R (continue x f)
    unfolding continue
    Post-continue (w, done a) f g h = (h a).at w g
    Post-continue (w, task_cancelled) f g h = g
    Post-continue (w, timed_out msg) f g h = g
    Post-continue (w, error msg) f g h = g
    Post-continue (w, unfinished) f g h = g

    pub Meets-bind :
        (m : M C A) (f : A → M C B)
        → Meets G R m
        → ((a : A) → Meets G R (f a))
        → Meets G R (m >>= f)
    unfolding ◌>>=◌
    Meets-bind m f km kf = record { at = λ w g. Post-continue (m w) f (km.at w g) kf }

  module _ (host : Host C) where
    pub Meets-pause : (ms : ℕ) → Meets G R (pause host ms)
    unfolding pause
    Meets-pause ms = record { at = λ w g. g }

    pub Meets-write : (id : String) (mapping : Hash) → Meets G R (write host id mapping)
    unfolding write write_with
    Meets-write id mapping = record { at = λ w g. g }

    pub Meets-write_with :
        (id : String) (mapping : String → Hash) → Meets G R (write_with host id mapping)
    unfolding write_with
    Meets-write_with id mapping = record { at = λ w g. g }

    pub Meets-say : (id level stage message : String) → Meets G R (say host id level stage message)
    unfolding say
    Meets-say id level stage message = record { at = λ w g. g }

    pub Meets-move_to :
        (id : String) (s : RestoreState) (extra : Hash) → Meets G R (move_to host id s extra)
    unfolding move_to
    Meets-move_to id s extra = record { at = λ w g. g }

    pub Meets-cancel : (id : String) → Meets G R (cancel host id)
    unfolding cancel
    Meets-cancel id = record { at = λ w g. g }

    pub Meets-fresh_ticks : (id : String) → Meets G R (fresh_ticks host id)
    unfolding fresh_ticks
    Meets-fresh_ticks id = record { at = λ w g. g }

    pub Meets-info : (id message : String) → Meets G R (info host id message)
    unfolding info
    Meets-info id message = Meets-say id "INFO" "RESTORING" message

    pub Meets-on_cancel : (id message : String) → Meets G R (on_cancel host id message)
    unfolding on_cancel
    Meets-on_cancel id message =
        Meets-bind _ _ (Meets-cancel id)
          λ _. Meets-bind _ _ (Meets-say id "INFO" "CANCELLED" message) λ _. Meets-pure stopped

    pub Post-after_wait :
        {A : Type 0} (x : World C × Result A) (id message : String) (f : A → M C JobEnding)
        → Post G R x
        → ((a : A) → Meets G R (f a))
        → Post G R (after_wait x (on_cancel host id message) f)
    unfolding after_wait
    Post-after_wait (w, done a) id message f g h = (h a).at w g
    Post-after_wait (w, task_cancelled) id message f g h = (Meets-on_cancel id message).at w g
    Post-after_wait (w, timed_out msg) id message f g h = g
    Post-after_wait (w, error msg) id message f g h = g
    Post-after_wait (w, unfinished) id message f g h = g

  -- Requests that start no guest.
  module _
      (keeps : (q : ApiRequest) (c : C) (l : List (ApiRequest × C))
        → starts q ≡ false
        → G l
        → G ((q, c) ∷ l)) where
    pub Meets-send :
        {A : Type 0} (q : ApiRequest) (f : C → C × A)
        → starts q ≡ false
        → Meets G R (send_request q f)
    unfolding send_request
    Meets-send q f h = record { at = λ w g. keeps q w.cluster w.sent h g }

  module _ {A : Type 0} where
    Post-prefixed :
        (text : String) (x : World C × Result A) (m : M C A)
        → Meets G R m
        → Post G R x
        → Post G R (prefixed text x)
    Post-prefixed text (w, done a) m km g = g
    Post-prefixed text (w, task_cancelled) m km g = g
    Post-prefixed text (w, timed_out msg) m km g = g
    Post-prefixed text (w, error msg) m km g = g
    Post-prefixed text (w, unfinished) m km g = g

    pub Meets-prefixed :
        (text : String) (m : M C A) → Meets G R m → Meets G R (λ w. prefixed text (m w))
    Meets-prefixed text m km = record { at = λ w g. Post-prefixed text (m w) m km (km.at w g) }
