-- ===== src/Launch/Input.antt =====
-- `InputThread` (src/node_launch.cpp): the lines of the keyboard while `main` waits. `SendMoveOn` is a
-- call to a node; the launcher reads no answer. The thread stops at its next look too when `main` sets
-- `stop_input`, but not while it is in `std::cin.ignore`.
use multi_paxos_distributed.Prelude.{
  String, ℕ, ◌≡◌, refl, Bool, true, ◌||◌, ◌&&◌, Option, none, some, List, [], ◌∷◌, if◌then◌else◌,
  str_eq, contains,
}
use multi_paxos_distributed.Client.{handle_move_on}
use multi_paxos_distributed.Launch.Main.{Launcher}

-- The thread waits for a line; or, after `Continue`, for the line that `std::cin.ignore` discards; or it
-- has ended, and `main` can join it.
pub data InputThread : Type 0 where
  reads ignores ended : InputThread

-- What a line does: the nodes that `SendMoveOn` calls, the launcher after it, and the thread.
pub record Input : Type 0 where
  pub moved_on : List ℕ
  pub launcher : Launcher
  pub thread : InputThread

-- Every node of the set has a stub.
unfoldable pub all_stubs : List ℕ → List ℕ → Bool
unfolding contains
all_stubs stubs [] = true
all_stubs stubs (id ∷ ids) = contains stubs id && all_stubs stubs ids

-- The next line; `none` where a null stub is called.
unfoldable pub input_line : InputThread → String → Launcher → Option Input
unfolding all_stubs handle_move_on
input_line reads input l =
    if str_eq input "Continue" || str_eq input "continue"
    then (if all_stubs l.stubs l.active_nodes_set
        then some (record {
          moved_on = l.active_nodes_set;
          launcher = record l { client = handle_move_on l.client };
          thread = ignores;
        })
        else none)
    else some (record { moved_on = []; launcher = l; thread = reads })
input_line ignores input l = some (record { moved_on = []; launcher = l; thread = ended })
input_line ended input l = some (record { moved_on = []; launcher = l; thread = ended })

-- A second `Continue` is the line that is discarded: it moves nothing on.
second_line :
    (l : Launcher)
    → input_line ignores "Continue" l
      ≡ some (record { moved_on = []; launcher = l; thread = ended })
unfolding input_line
second_line l = refl
