-- ===== src/Start/Process.antt =====
-- A process from its initial stack on.
use mathlib.Core.Path.{fun_ext}
use libuc.Prelude.{ℕ, ◌<◌, ◌^◌, ◌≡◌, ◌≢◌, ◌∙◌, ap, pos, List, [], ◌∷◌, length, none, some, true}
use libuc.Ring.{Ring, Kernel}
use libuc.Ring.Create.{Setup, create}
use libuc.Ring.Submit.{IsCounted, IsQuietFrom}
use libuc.ThreadLocal.{Header, read_layout, thread_local_layout}
use libuc.Machine.{Ptr, Fiber, State, ok}
use libuc.Fiber.{Event}
use libuc.Auxv.{auxv_get}
use libuc.Auxv.Search.{lookup}
use libuc.Scheduler.{become}
use libuc.Scheduler.Reactor.{run}
use libuc.Scheduler.Spawn.{MapsFresh, IsMade}
use libuc.Scheduler.Account.{names}
use libuc.Scheduler.Rounds.{Rounded, Cooperates, Runs, run-Runs}
use libuc.Scheduler.Refine.{Refines, Rounded-Refines}
use libuc.Start.{prepare, boot, found, libuc_start}
use libuc.Start.Walk.{InitialStack, find_auxv-auxv_get}
use libuc.Start.Boot.{CannotStart, alone, gives_up, runs, boot-Boots}

-- The state with the layout that the auxiliary vector gives.
abbrev pub laid_out : ((address : ℕ) → ℕ → Header) → List (ℕ × ℕ) → State → State
laid_out headers pairs s = record s { layout = read_layout (lookup pairs) headers }

module _ (words : ℕ → ℕ) (headers : (address : ℕ) → ℕ → Header) (setup : Setup) (event : Event)
    (enter : Kernel) (events : ℕ → Event)
    (walk_fuel search_fuel fuel rounds root_entry arguments : ℕ) where
  -- What a process does: it exits with 127, with a reason, or its reactor runs with the root fiber as
  -- the first one. `first` is its state with the layout.
  pub data Starts (s first : State) : Type 0 where
    exits :
        (t : State)
        → CannotStart setup event first
        → libuc_start words headers setup event enter events walk_fuel search_fuel fuel rounds
            root_entry arguments s
          ≡ ok (pos 127) t
        → Starts s first
    reacts :
        (t : State) (root : Ptr) (g : Fiber) (ring : Ring)
        → first.layout ≢ none
        → (create setup).1 ≡ some ring
        → IsMade event (become setup first).1 8388608 root g
        → libuc_start words headers setup event enter events walk_fuel search_fuel fuel rounds
            root_entry arguments s
          ≡ run enter events fuel rounds t
        → t.fibers root ≡ some g
        → (g.entry ≡ root_entry) × (g.argument ≡ arguments)
        → t.ready_head ≡ root
        → Runs enter events fuel rounds t (names s.submitted)
        → ((u : State) (by_then : List Ptr)
            → Rounded enter events fuel t (names s.submitted) u by_then
            → Refines by_then (alone root) u)
        → Starts s first

  module _ (argv envp : List ℕ) (pairs : List (ℕ × ℕ)) (stack : InitialStack words argv envp pairs)
      (enough : length envp < walk_fuel) (enough_pairs : length pairs < search_fuel)
      (s : State) where
    libuc_start-boot :
        s.layout ≡ none
        → libuc_start words headers setup event enter events walk_fuel search_fuel fuel rounds
            root_entry arguments s
          ≡ boot setup event enter events fuel rounds root_entry arguments
              (laid_out headers pairs s)
    unfolding libuc_start thread_local_layout
    libuc_start-boot first =
        let (start, is, finds) =
          find_auxv-auxv_get words argv envp pairs walk_fuel search_fuel stack enough
            enough_pairs in
        let searches : (λ type. found (auxv_get words type search_fuel start)) ≡ lookup pairs =
          fun_ext (λ type. ap found (finds type)) in
        rw (libuc_start, is, first)
          (ap
            (λ auxv.
              boot setup event enter events fuel rounds root_entry arguments
                (record s { layout = read_layout auxv headers }))
            searches)

    -- On an initial stack, with fuel for the walk and the searches, a process whose mappings are fresh
    -- and whose ring, if it is created, fits the counts exits with 127 if the auxiliary vector gives no
    -- layout, no ring is created, or the root fiber cannot be made. Else it runs the reactor, with the
    -- root fiber, which has the root's entry and arguments, at the front; and then it never faults: the
    -- reactor stops with a status, traps or goes on from a valid state, and each state that its rounds
    -- lead to stands for one that the abstract scheduler reaches from a single new thread. The
    -- condition on the rounds is theirs, at the state in which the reactor starts.
    pub libuc_start-Starts :
        (quiet : ℕ)
        → IsCounted enter
        → IsQuietFrom enter quiet
        → s.layout ≡ none
        → ((a : Ptr) → s.fibers a ≡ none)
        → ((ring : Ring) → (create setup).1 ≡ some ring → ring.sq_entries < 2 ^ 32)
        → MapsFresh event (become setup (laid_out headers pairs s)).1 8388608
        → ((t : State)
            → prepare setup event root_entry arguments (laid_out headers pairs s) ≡ ok true t
            → Cooperates enter events fuel quiet t (names s.submitted))
        → Starts s (laid_out headers pairs s)
    libuc_start-Starts quiet counted still first clear small fresh cooperates =
        elim (boot-Boots setup event enter events fuel rounds root_entry arguments
          (laid_out headers pairs s) small clear fresh) [
            | gives_up t cannot stops ends ↦ exits t cannot (libuc_start-boot first ∙ ends)
            | runs t root g ring known created parts ready starts there facts shows h ↦
                reacts t root g ring known created parts (libuc_start-boot first ∙ starts) there
                  facts shows.valid.ready.chain.0
                  (run-Runs enter events fuel quiet counted still rounds t (names s.submitted)
                    (root ∷ []) [] [] shows.valid h (cooperates t ready))
                  (λ u by_then there.
                    Rounded-Refines enter events fuel quiet counted still (alone root) there shows h
                      (cooperates t ready))
          ]
