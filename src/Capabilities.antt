-- ===== src/Capabilities.antt =====
-- manager/capabilities.py: the registry of the manager's capabilities.
pub mod Ids
use machine_manager.Base.{
  ℕ, ◌≡◌, Bool, true, false, not, Option, none, some, List, [], ◌∷◌, ◌++◌, map, if◌then◌else◌,
  String,
}
use machine_manager.Base.Assoc.{select, upsert}
use machine_manager.Base.Exec.{Exec, pure, ◌>>=◌, ◌>>◌}
use machine_manager.Base.Result.{Result, ok, err, value_error, key_error}
use machine_manager.Base.Sorting.{sort_by}
use machine_manager.Base.Text.{Text, text, text_eq, text_leb, strip, is_empty}

pub record Capability : Type 0 where
  pub capability_id : Text
  pub description : Text
  pub enabled : Bool

-- The dictionary `_capabilities`, in the order of insertion.
abbrev pub Capabilities : Type 0
Capabilities = List (Text × Capability)

-- `register`, by what the dictionary has under the stripped id.
unfoldable pub add_unless_there : Option Capability → Text → Text → Bool → Exec Capabilities Unit
unfolding upsert
add_unless_there (some c) id description enabled cs = (err value_error, cs)
add_unless_there none id description enabled cs = (
  ok tt,
  upsert id (record { capability_id = id; description = strip description; enabled = enabled }) cs,
)

unfoldable pub register : Text → Text → Bool → Exec Capabilities Unit
unfolding add_unless_there select
register capability_id description enabled cs =
    let id = strip capability_id in
    if is_empty id
    then (err value_error, cs)
    else add_unless_there (select id cs) id description enabled cs

-- `set_enabled`, by what the dictionary has under the id, which is not stripped.
unfoldable pub switch : Option Capability → Text → Bool → Exec Capabilities Unit
unfolding upsert
switch none id enabled cs = (err key_error, cs)
switch (some current) id enabled cs = (
  ok tt,
  upsert id
      (record {
        capability_id = current.capability_id;
        description = current.description;
        enabled = enabled;
      })
      cs,
)

unfoldable pub set_enabled : Text → Bool → Exec Capabilities Unit
unfolding switch select
set_enabled id enabled cs = switch (select id cs) id enabled cs

-- `snapshot`, in the order of the ids.
unfoldable pub snapshot : Capabilities → List Capability
snapshot cs =
    sort_by (λ a b. text_leb a.capability_id b.capability_id)
      (map (λ (p : Text × Capability). p.1) cs)

-- The flags of `default`.
pub record Flags : Type 0 where
  pub github_upload : Bool
  pub agents : Bool
  pub execute_and_report : Bool
  pub transparent_outreach : Bool
  pub developer_tools : Bool
  pub gpu_idle_use : Bool
  pub evidence_ledger : Bool
  pub constraint_audit : Bool
  pub workstreams : Bool
  pub queue_dispatch : Bool
  pub research : Bool
  pub verification : Bool
  pub revenue : Bool

abbrev registers : String → String → Bool → Exec Capabilities Unit
registers id description enabled = register (text id) (text description) enabled

-- `default`
unfoldable pub register_default : Flags → Exec Capabilities Unit
unfolding register
register_default f = do
  registers "process-supervision" "Start, observe, recover, and stop bounded worker processes." true
  registers "gpu-monitoring" "Read external GPU activity signals for GPU-bound workers." true
  registers "persistent-state"
      "Store local job state, event history, retry counts, and queued work." true
  registers "durable-queue-dispatch" "Claim and record registered non-protected work items."
      f.queue_dispatch
  registers "public-research-workers"
      "Fetch configured public sources and retain bounded evidence artifacts." f.research
  registers "repository-verification" "Run configured repository checks as durable work."
      f.verification
  registers "revenue-discovery"
      "Query configured agent-eligible opportunity listings without submitting or claiming work."
      f.revenue
  registers "synthetic-workers" "Run deterministic workers for safe reliability evaluation." true
  registers "local-ollama-agents" "Ask configured local models for bounded recommendations."
      f.agents
  registers "public-telemetry" "Publish an allowlisted, sanitized dashboard snapshot." true
  registers "github-pages-upload"
      "Upload sanitized dashboard files when a dedicated token is configured." f.github_upload
  registers "execute-and-report-charter"
      "Pursue authorized work through research, build, verification, publication, and follow-up."
      f.execute_and_report
  registers "transparent-outreach"
      "Prepare AI-disclosed first contact and permanently suppress opted-out recipients."
      f.transparent_outreach
  registers "developer-tooling"
      "Install and use normal developer tooling when a capable worker needs it." f.developer_tools
  registers "idle-gpu-work"
      "Use available GPU capacity for declared work when the protected worker is idle."
      f.gpu_idle_use
  registers "capability-evidence-ledger"
      "Record tested and observed worker capabilities by model/runtime version." f.evidence_ledger
  registers "constraint-audit"
      "Find candidate approval and policy language for evidence-based review without changing source automatically."
      f.constraint_audit
  registers "workstream-ledger"
      "Publish configured worker missions with observed state instead of an unexplained queue count."
      f.workstreams
