-- ===== src/Providers/Runtime/Tests.antt =====
-- The provider runtime with one adapter, which runs what it is asked to.
use home_bot.Common.{◌≡◌, refl, none, some, [], ◌∷◌, ℕ, ok, err, List, arith}
use home_bot.Providers.Runtime.Defs.{
  ProviderRuntime, register, begin, duplicate_operation, empty, reserve_operation, resume, run_call,
  settle_begun, settle, finish, operation_not_found,
}
use home_bot.Providers.Contracts.{
  ProviderAdapter, ResumeRequest, StartRequest, available, normal, plan,
}
use home_bot.Providers.Runtime.Overlap.{
  IsOwned, World, Reach-IsOwned, Reach, next, registers, begins, running, runs, waiting,
}
use home_bot.Common.Text.{codes, text_eq}
use home_bot.Common.HashMap.{get, insert, remove, nat_eq}
use home_bot.Providers.Runtime.Routing.{start_resume-operations}
use home_bot.Providers.Runtime.Cancel.{
  start-cancel-finish, apply_all, RuntimeCall, starts, finishes, recovers,
}
use home_bot.Providers.Runtime.Defs
use home_bot.Providers.Runtime.Overlap

abbrev echo : ProviderAdapter ℕ
echo = record {
  id = codes "echo";
  discover = λ moment. ok (record {
    adapter_id = codes "echo";
    display_name = codes "Echo";
    executable = none;
    capabilities = record { supported = [] };
  });
  health = λ moment. record { availability = available; message = []; checked_at_unix_ms = 0 };
  models = λ moment. ok [];
  start = λ moment request. ok (record { operation_id = request.operation_id });
  resume = λ moment request. ok (record { operation_id = 0 });
  cancel = λ moment operation_id. ok tt;
  resolve_approval = λ moment approval_id decision. ok tt;
  resolve_tool_call = λ moment call_id result. ok tt;
  compact = λ moment request. ok tt;
  recover = λ moment. ok (record { operation_id = 7 } ∷ []);
}

abbrev with_echo : ProviderRuntime ℕ
with_echo = record { adapters = (codes "echo", echo) ∷ []; operations = [] }

abbrev ask : StartRequest ℕ
ask = record {
  operation_id = 5;
  bot_id = 1;
  chat_id = 2;
  prompt = codes "hello";
  model = none;
  working_directory = none;
  mode = normal;
  attachments = [];
  tools = [];
}

abbrev ask_again : ResumeRequest ℕ
ask_again = record {
  operation_id = 6;
  conversation_id = codes "c";
  prompt = codes "hello";
  model = none;
  working_directory = none;
  mode = plan;
  attachments = [];
  tools = [];
}

start_resume-operations_example :
    (get 5 (Defs.start 1 with_echo (codes "echo") ask).0.operations ≡ some (codes "echo"))
    × (get 5 (resume 1 with_echo (codes "echo") ask_again).0.operations ≡ none)
unfolding Defs.start resume run_call begin reserve_operation settle_begun settle finish get insert
    remove text_eq
start_resume-operations_example = start_resume-operations with_echo (codes "echo") 1 ask ask_again 5

-- The operation is started again, another one is started and finished, and operation 7 is recovered.
abbrev later : List (RuntimeCall ℕ)
later =
    starts 2 (codes "echo") ask
    ∷ starts 3 (codes "echo") (record ask { operation_id = 6 })
    ∷ finishes 6
    ∷ recovers 4
    ∷ []

start-cancel-finish_example :
    let t = apply_all (Defs.start 1 with_echo (codes "echo") ask).0 later in
    (Defs.cancel 5 t 5 ≡ ok tt) × (Defs.cancel 5 (finish t 5) 5 ≡ err (operation_not_found 5))
unfolding Defs.start run_call begin reserve_operation settle_begun settle get insert text_eq
start-cancel-finish_example =
    start-cancel-finish with_echo (codes "echo") ask 1 5 later {a = echo} refl refl
      (tt, (tt, (λ same. absurd (omega (arith, same)), (tt, tt))))

-- A call of `start` for operation 5 that waits for the adapter, and then has returned its run.
abbrev one_waits : World ℕ
one_waits = record {
  runtime = (begin (register empty echo).0 (codes "echo") 5).0;
  calls = (5, record { adapter_id = codes "echo"; phase = waiting }) ∷ [];
}

one_waits-Reach : Reach one_waits
unfolding register begin reserve_operation empty get insert text_eq
one_waits-Reach = next (next Overlap.start (registers _ echo)) (begins _ (codes "echo") 5 echo refl)

abbrev one_runs : World ℕ
one_runs = record {
  runtime = (settle one_waits.runtime 5 (ok (record { operation_id = 5 }))).0;
  calls = (5, record { adapter_id = codes "echo"; phase = running }) ∷ remove 5 one_waits.calls;
}

one_runs-Reach : Reach one_runs
unfolding register begin reserve_operation empty get insert text_eq settle
one_runs-Reach = next one_waits-Reach (
    runs one_waits (codes "echo") 5 (ok (record { operation_id = 5 })) (record { operation_id = 5 })
      refl refl)

Reach-IsOwned_example : IsOwned one_runs
Reach-IsOwned_example = Reach-IsOwned one_runs-Reach
