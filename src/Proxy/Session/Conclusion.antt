-- ===== src/Proxy/Session/Conclusion.antt =====
-- A session whose peers hang up comes to a result.
use claudepod.Prelude.{List, Bytes}
use claudepod.Outcome.{Outcome, ok, err, pending, out_of_fuel}
use claudepod.Outcome.Laws.{Concluded}
use claudepod.Outcome.Trace.{Post}
use claudepod.Outcome.Ending.{Ended}
use claudepod.Proxy.Session.{World, Env}
use claudepod.Proxy.Session.Rounds.{run}
use claudepod.Proxy.Session.Traffic.{IsOpen}
use claudepod.Proxy.Session.Opening.{Fresh}
use claudepod.Proxy.Session.Whole.{run-Completed}
use claudepod.Proxy.Session.Waits.{BothHung}
use claudepod.Proxy.Session.Ending.{Dialled, Answered, Ends-run}

pub concluded :
    {A L : Type 0} (P : A → L → Type 0) (E : L → Type 0) (r : Outcome A) (a : L)
    → Post P E r a
    → Ended r
    → Concluded r
concluded P E (ok x) a p e = tt
concluded P E (err x) a p e = tt
concluded P E pending a p e = e
concluded P E out_of_fuel a p e = p

-- Where both peers send nothing but bytes and hang up behind them, the host daemon's connection
-- starts with what dialling gives and nothing written, and the dial and every fill are answered, be
-- it by errors, a session ends with a success or an error: it neither waits for ever nor lacks fuel.
pub run-Concluded :
    (env : Env) (w : World)
    → IsOpen w
    → Fresh env.connect w
    → BothHung w
    → Dialled env.connect
    → ((before : List Bytes) (path : Bytes) → Answered (env.fill before path))
    → Concluded (run env w).0
run-Concluded env w o f hung dialled filling =
    let d = run-Completed env w o f in
    concluded _ _ (run env w).0 d.log d.post ((Ends-run env filling dialled).at w hung).0
