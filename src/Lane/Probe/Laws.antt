-- ===== src/Lane/Probe/Laws.antt =====
-- What a receipt of the lane attests.
use Prim.Native.String.{◌++◌ as ◌<>◌}
use ggen_igniter.Base.{
  ℕ, String, none, some, List, [], ◌∷◌, ◌++◌, ◌≡◌, ◌↔◌, map, number_eq, string_eq,
}
use ggen_igniter.Json.{text, array_of, at}
use ggen_igniter.Lane.Probe.Entries.{Entry, command_logs, falsifier_logs, gate_dir}
use ggen_igniter.Lane.Probe.{
  World, Command, alive, Receipt, push_command, gate_digest, candidate_digest, command_json,
  hosted_json,
}

-- The digest is that of what the file holds.
IsDigest : World → String → String → Type 0
IsDigest w path digest = (text : String) × (w.read path ≡ some text) × (digest ≡ w.sha256 text)

-- The digest of an entry is that of its log.
IsAttested : World → Entry → Command → Type 0
unfolding IsDigest
IsAttested w e c =
    (c.command ≡ e.command)
    × (c.exit ≡ e.exit)
    × (c.log ≡ some (gate_dir <> ("/" <> e.name)))
    × ((digest : String) × (c.output_sha256 ≡ some digest)
        × IsDigest w (gate_dir <> ("/" <> e.name)) digest)

-- Each of the entries in its place, and after them those of the rest.
AreAttested : World → List Entry → List Command → List Command → Type 0
unfolding IsAttested
AreAttested w [] cs rest = cs ≡ rest
AreAttested w (l ∷ ls) [] rest = ⊥
AreAttested w (l ∷ ls) (c ∷ cs) rest = IsAttested w l c × AreAttested w ls cs rest

-- What is written to the file: the commands, the falsifiers as killed, the latest hosted run and the
-- standing stand in the document at their keys.
unfoldable pub IsWritten : World → ℕ → Receipt → Type 0
IsWritten w full_exit r =
    (at ("replay" ∷ "commands" ∷ []) r.document
      ≡ some (array_of (map (command_json w.root none) r.commands)))
    × (at ("falsifiers" ∷ []) r.document
        ≡ some (array_of (map (command_json w.root (some "killed")) r.falsifiers)))
    × (at ("hosted_ci" ∷ []) r.document ≡ some (hosted_json r.hosted_ci))
    × ((at ("standing" ∷ "value" ∷ []) r.document ≡ some (text "ALIVE")) ↔ (full_exit ≡ 0))

-- What a receipt attests.
unfoldable pub IsAttestation : World → ℕ → String → Receipt → Type 0
unfolding AreAttested IsDigest command_logs push_command
IsAttestation w full_exit full_summary r =
    IsDigest w (gate_dir <> "/r2-gi-probe-isolation.sh") gate_digest
    × IsDigest w (gate_dir <> "/candidate-r2-gi-probe-isolation.patch") candidate_digest
    × AreAttested w (command_logs gate_digest candidate_digest full_exit full_summary) r.commands
        (push_command ∷ [])
    × AreAttested w falsifier_logs r.falsifiers []
    × ((r.standing ≡ alive) ↔ (full_exit ≡ 0))
    × ((r.broken_term ≡ none) ↔ (full_exit ≡ 0))
    × IsWritten w full_exit r
