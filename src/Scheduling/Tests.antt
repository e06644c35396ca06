-- ===== src/Scheduling/Tests.antt =====
-- Runs of src/platform/scheduling: two replicas and one task.
use nest_kit.Scheduling.{
  Phase, asking, won, running, leaving, skips, acquire, release, holder_of, drop_key, begin_run,
  end_run,
}
use nest_kit.Base.{ℕ, String, refl, true, List, [], ◌∷◌, ◌++◌, arith}
use nest_kit.Queries.{first, select}
use nest_kit.Scheduling.Exclusion.{
  System, Tick, Reach, IsPaced, start, later, begins, asks, starts, ends, releases, asked, update,
  replica,
}
use nest_kit.Scheduling.Safety.{HasOneLive, IsLive, Reach-HasOneLive}

abbrev idle : System
idle = record { replicas = replica; locks = []; ticks = []; clock = 0 }

abbrev tick : String → Phase → Tick
tick holder phase = record { name = "job"; holder = holder; phase = phase }

abbrev begun : String → System → System
begun holder s = record s { ticks = tick holder asking ∷ s.ticks }

abbrev answered : ℕ → List Tick → String → List Tick → System → System
answered now before holder after s =
    asked 100 now s before (tick holder asking) after
      (acquire true "job" (s.replicas holder).holder 100 now s.locks)

abbrev started : ℕ → List Tick → String → List Tick → System → System
started until before holder after s = record s {
  replicas = update s.replicas holder (begin_run "job" (s.replicas holder));
  ticks = before ++ tick holder (running until) ∷ after;
}

-- Both replicas tick, the second within the lifetime of the first one's lock.
abbrev first_runs : System
first_runs = started 105 [] "a" [] (answered 5 [] "a" [] (begun "a" idle))

abbrev both : System
both = answered 10 [] "b" (tick "a" (running 105) ∷ []) (begun "b" first_runs)

first_runs_reached : Reach 100 first_runs
unfolding skips acquire holder_of first
first_runs_reached =
    later
      (later (later (start 0) (begins "job" "a" refl))
        (asks true 5 [] (tick "a" asking) [] (omega arith) refl refl))
      (starts 105 [] (tick "a" (won 105)) [] refl refl)

both_reached : Reach 100 both
unfolding skips acquire holder_of first first_runs_reached begin_run
both_reached =
    later (later first_runs_reached (begins "job" "b" refl))
      (asks true 10 [] (tick "b" asking) (tick "a" (running 105) ∷ []) (omega arith) refl refl)

both-IsPaced : IsPaced both_reached
unfolding IsPaced both_reached first_runs_reached
both-IsPaced = (tt, (refl, (tt, (tt, (refl, tt)))))

Reach-HasOneLive_example : HasOneLive both.clock both.ticks
Reach-HasOneLive_example = Reach-HasOneLive 100 both both_reached both-IsPaced

-- Replica `a` begins a second tick while it waits for Redis in the first one, and the question of the
-- second reaches Redis after the lifetime of the first lock. The end of the first run then releases
-- the lock of the second one, and `b` runs as well.
abbrev two_asked : System
two_asked = begun "a" (answered 5 [] "a" [] (begun "a" idle))

abbrev two_run : System
two_run = started 210 [] "a" (tick "a" (running 105) ∷ []) (
    answered 110 [] "a" (tick "a" (running 105) ∷ [])
      (started 105 (tick "a" asking ∷ []) "a" [] two_asked))

abbrev released : System
released = record two_run {
  replicas = update two_run.replicas "a" (end_run "job" (two_run.replicas "a"));
  locks = release true "job" "a" 120 two_run.locks;
  ticks = tick "a" (running 210) ∷ [];
  clock = 120;
}

abbrev overlap : System
overlap =
    started 230 [] "b" (tick "a" (running 210) ∷ [])
      (answered 130 [] "b" (tick "a" (running 210) ∷ []) (begun "b" released))

two_run_reached : Reach 100 two_run
unfolding skips acquire holder_of first drop_key select
two_run_reached =
    later
      (later
        (later
          (later
            (later (later (start 0) (begins "job" "a" refl))
              (asks true 5 [] (tick "a" asking) [] (omega arith) refl refl))
            (begins "job" "a" refl))
          (starts 105 (tick "a" asking ∷ []) (tick "a" (won 105)) [] refl refl))
        (asks true 110 [] (tick "a" asking) (tick "a" (running 105) ∷ []) (omega arith) refl refl))
      (starts 210 [] (tick "a" (won 210)) (tick "a" (running 105) ∷ []) refl refl)

released_reached : Reach 100 released
unfolding skips acquire holder_of first drop_key select begin_run end_run
released_reached =
    later
      (later two_run_reached
        (ends 105 (tick "a" (running 210) ∷ []) (tick "a" (running 105)) [] refl refl))
      (releases true 120 (tick "a" (running 210) ∷ []) (tick "a" leaving) [] (omega arith) refl
        refl)

overlap_reached : Reach 100 overlap
unfolding skips acquire holder_of first drop_key select begin_run end_run release
overlap_reached =
    later
      (later (later released_reached (begins "job" "b" refl))
        (asks true 130 [] (tick "b" asking) (tick "a" (running 210) ∷ []) (omega arith) refl refl))
      (starts 230 [] (tick "b" (won 230)) (tick "a" (running 210) ∷ []) refl refl)

overlap-IsLive : IsLive 130 (tick "b" (running 230)) × IsLive 130 (tick "a" (running 210))
overlap-IsLive = ((230, refl, omega arith), (210, refl, omega arith))

overlap-HasOneLive : ¬ HasOneLive 130 overlap.ticks
overlap-HasOneLive h = h.0.0 overlap-IsLive.0 overlap-IsLive.1 refl
