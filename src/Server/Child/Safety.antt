-- ===== src/Server/Child/Safety.antt =====
-- A child of a parent that has loaded its scripts: from the fork through any requests.
use smarty_appserver.Prelude.{
  ℕ, zero, suc, ℤ, ◌≡◌, refl, none, some, List, [], ◌∷◌, All, get_elem?, set, arith,
}
use smarty_appserver.Errors.{Result, ok, exit}
use smarty_appserver.Action.Ends.{Ends, Ends-bind, Ends-pure, Ends-lift, Ends-lift_ok}
use smarty_appserver.Action.Ensures.{Returns, Any}
use smarty_appserver.Database.{DbMap}
use smarty_appserver.Parser.{Externals}
use smarty_appserver.Pool.{Slot, SlotState, st_idle, st_busy, set_slot_state}
use smarty_appserver.Assigner.Ownership.{IsSound}
use smarty_appserver.Assigner.Evaluate.Laws.{IsLawful}
use smarty_appserver.World.{World, System}
use smarty_appserver.Server.{script_selector}
use smarty_appserver.Server.Request.{Scripts, query_text}
use smarty_appserver.Server.Request.Safety.{IsReady, Fits, handle_request_safe}
use smarty_appserver.Server.Child.{Arrival, accept_failed, arrived, on_arrival, serve_one, serve}

-- A request has a method and SERVER_PROTOCOL, and its environment fits the buffer.
abbrev pub IsServable : Externals → Arrival → Type 0
IsServable x accept_failed = Unit
IsServable x (arrived none initial r) = ⊥
IsServable x (arrived (some protocol) initial r) = Fits r.envp × Returns Any (query_text x r)

-- The slot is that of an idle child.
abbrev pub IsIdle : ℕ → ℕ → List Slot → Type 0
IsIdle num pid slots =
    get_elem? slots num ≡ some (record { slotbusy = 1; childsts = st_idle; childpid = pid })

get_elem?-set {ℓ} :
    {A : Type ℓ} (xs : List A) (i : ℕ) (a v : A)
    → get_elem? xs i ≡ some a
    → get_elem? (set xs i v) i ≡ some v
get_elem?-set [] i a v e = absurd (ground arith)
get_elem?-set (x ∷ xs) zero a v e = refl
get_elem?-set (x ∷ xs) (suc i) a v e = get_elem?-set xs i a v e

set_slot_state-known :
    (num : ℕ) (state : SlotState) (slots : List Slot) (s : Slot)
    → get_elem? slots num ≡ some s
    → set_slot_state num state slots ≡ ok (set slots num (record s { childsts = state }))
unfolding set_slot_state
set_slot_state-known num state slots s e = rw (e, set_slot_state) refl

module _ {S : Type 0} (x : Externals) (lawful : IsLawful x) (sys : System S) (rank : ℤ → ℕ)
    (fuel num pid : ℕ) where
  -- Between two requests.
  abbrev pub Serves : DbMap → Scripts × List Slot → World S → Type 0
  Serves dbs st w =
      (IsReady (script_selector x) dbs rank fuel st.0 × IsIdle num pid st.1) × IsSound w

  abbrev busy_slot : Slot
  busy_slot = record { slotbusy = 1; childsts = st_busy; childpid = pid }

  on_arrival-Ends :
      (dbs : DbMap) (scripts : Scripts) (slots : List Slot) (a : Arrival) (w : World S)
      → IsServable x a
      → IsReady (script_selector x) dbs rank fuel scripts
      → get_elem? slots num ≡ some busy_slot
      → IsSound w
      → Ends (Serves dbs) IsSound (on_arrival x sys fuel num dbs scripts slots a w)
  on_arrival-Ends dbs scripts slots accept_failed w can ready busy sound = Ends-lift exit w sound
  on_arrival-Ends dbs scripts slots (arrived none initial r) w can ready busy sound = absurd can
  on_arrival-Ends dbs scripts slots (arrived (some protocol) initial r) w can ready busy sound =
      Ends-bind _ _ w
        (handle_request_safe x lawful sys dbs protocol rank fuel initial scripts r w ready can.0
          can.1 sound)
        (λ scripts' w' (ready', sound').
          Ends-bind _ _ w'
            (Ends-lift_ok {Q = λ s v. IsIdle num pid s × IsSound v} _ _ w'
              (set_slot_state-known num st_idle slots _ busy)
              (get_elem?-set slots num _ _ busy, sound'))
            (λ idle v (is_idle, still). Ends-pure (scripts', idle) v ((ready', is_idle), still)))

  serve_one-Ends :
      (dbs : DbMap) (st : Scripts × List Slot) (a : Arrival) (w : World S)
      → IsServable x a
      → Serves dbs st w
      → Ends (Serves dbs) IsSound (serve_one x sys fuel num dbs st a w)
  serve_one-Ends dbs (scripts, slots) a w can ((ready, idle), sound) =
      Ends-bind _ _ w
        (Ends-lift_ok {Q = λ s v. (get_elem? s num ≡ some busy_slot) × IsSound v} _ _ w
          (set_slot_state-known num st_busy slots _ idle) (get_elem?-set slots num _ _ idle, sound))
        (λ s v (busy, still). on_arrival-Ends dbs scripts s a v can ready busy still)

  pub serve-Ends :
      (dbs : DbMap) (st : Scripts × List Slot) (arrivals : List Arrival) (w : World S)
      → All (IsServable x) arrivals
      → Serves dbs st w
      → Ends (Serves dbs) IsSound (serve x sys fuel num dbs st arrivals w)
  unfolding serve
  serve-Ends dbs st [] w can h = Ends-pure st w h
  serve-Ends dbs st (a ∷ rest) w can h =
      Ends-bind _ _ w (serve_one-Ends dbs st a w can.0 h)
        (λ st' w' h'. serve-Ends dbs st' rest w' can.1 h')

  -- The databases are connected and the slot is idle, and the world is as before.
  abbrev IsStarted : Result (Unit {0}) × DbMap → DbMap × List Slot → World S → Type 0
  IsStarted c p w = ((c.0 ≡ ok tt) × ((p.0 ≡ c.1) × IsIdle num pid p.1)) × IsSound w
