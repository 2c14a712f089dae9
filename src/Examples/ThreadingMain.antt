-- ===== src/Examples/ThreadingMain.antt =====
-- `main` of examples/threading.cpp: the demos that it runs, one after the other.
use fredlib.Base.{List, [], ◌∷◌}
use fredlib.Threading.Program.{System}
use fredlib.Examples.ThreadingDemo.{
  syncpoint_demo, pausepoint_demo, faninpoint_demo, threadcontrol_demo, workerthread_demo,
}
use fredlib.Examples.PoolDemo.{Demo, genericthreadpool_demo}

-- A demo, as it starts.
pub data Started : Type 0 where
  under_control : System → Started
  in_pool : Demo → Started

unfoldable pub threading_main : List Started
threading_main =
    under_control syncpoint_demo
    ∷ under_control pausepoint_demo
    ∷ under_control faninpoint_demo
    ∷ under_control threadcontrol_demo
    ∷ under_control workerthread_demo
    ∷ in_pool genericthreadpool_demo
    ∷ []
