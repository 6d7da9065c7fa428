-- ===== src/Web/Reads/Newest.antt =====
-- What handleHistory of runtime/web/server.go shows of the cycles that were recorded.
use jarvinx.Shared.{ℕ, ◌+◌, ◌≡◌, refl, ◌<◌, arith, List, ◌++◌, some, length, last_of}
use jarvinx.Shared.Int.{pos, two63}
use jarvinx.Shared.Float.{Float64}
use jarvinx.Shared.Reverse.{reverse_in_place-reverse}
use jarvinx.Memory.Records.{CycleRecord}
use jarvinx.Memory.State.{State, current_cycle}
use jarvinx.Memory.State.Window.{add_all_cycles, numbered, last_cycles-add_all_cycles}
use jarvinx.Web.Server.{Server, World}
use jarvinx.Web.Responses.{Reply, HistoryResponse, history_json, write_json}
use jarvinx.Web.Reads.{handle_history, history_response}
use mathlib.Core.List.{reverse}

module _ {F : Type 0} ⦃fl : Float64 F⦄ where
  -- After any cycles were recorded in the state, fewer than an int can number, the history that the
  -- server shows is that of the last ten cycles, newest first and with their numbers, and its total is
  -- the number of the newest.
  pub handle_history-add_all_cycles :
      (w : World F) (s : Server F) (reply : Reply F) (num : ℕ) (rs : List (CycleRecord F))
      (start : State F)
      → s.state ≡ add_all_cycles rs start
      → start.fields.cycle_num ≡ pos num
      → num + length rs < two63
      → let shown : HistoryResponse F = record {
        cycles = reverse (last_of 10 (start.fields.cycles ++ numbered num rs));
        total = pos (num + length rs);
      } in
        handle_history w s reply ≡ some (write_json w.failure (history_json shown) reply)
  unfolding handle_history history_response current_cycle
  handle_history-add_all_cycles w s reply num rs start e n b =
      let (nums, cycles) = last_cycles-add_all_cycles 10 num rs start (omega arith) n b in
      rw
        (
          e,
          cycles,
          reverse_in_place-reverse (last_of 10 (start.fields.cycles ++ numbered num rs)),
          nums,
        )
        refl
