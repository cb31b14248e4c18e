-- ===== src/Patch/Texts.antt =====
-- The texts that the script looks for and writes, as its literals spell them.
use Prim.Native.String.{◌++◌ as ◌<>◌}
use ggen_igniter.Base.{String}

abbrev pub doc_anchor : String
doc_anchor = "  Igniter AST-patch actuation (a real `Sourceror`/`Igniter.Code`-based\n"

abbrev pub policy_doc : String
policy_doc =
    "  ## Reserved `generated/` directory invariant\n\n  A directory path segment named exactly `generated` is a forbidden output\n  ownership surface. Generated projections must land at their canonical source\n  location (for example `lib/my_app/accounts/user.ex`), not under a parallel\n  `generated/` tree. The path is canonicalized before admission, so `.`/`..`\n  aliases and existing symlink aliases cannot bypass the refusal. A filename\n  such as `generated_file.ex` is valid; only a directory segment named exactly\n  `generated` is reserved.\n\n  `output_path_admission/1` is the typed, side-effect-free policy used by the\n  whole-plan admission layer. `admit_output_path!/1` is the fail-closed\n  actuation-boundary form. Every filesystem mutation path calls the latter as\n  defense in depth, but callers that own a multi-output plan MUST preflight the\n  full plan before the first write.\n\n"

abbrev pub write_new_file : String
write_new_file = "  def write_new_file!(path, content) do\n"

abbrev pub write_file : String
write_file = "  def write_file!(path, content, opts \\\\ []) do\n"

abbrev pub inject_anchor : String
inject_anchor =
    "  def inject_content!(path, marker, content, insert_mode, opts \\\\ [])\n      when insert_mode in [:before, :after, :at_line] do\n"

unfoldable pub inject_with_guard : String
inject_with_guard = inject_anchor <> "    admit_output_path!(path)\n"

abbrev pub helper_anchor : String
helper_anchor = "  defp matches?(content, %Regex{} = pattern), do: Regex.match?(pattern, content)\n"

abbrev pub helpers : String
helpers =
    "  @doc \"\"\"\n  Pure admission check for one output path.\n\n  Returns a typed refusal when the canonical target resolves through any\n  directory segment named exactly `generated`. Existing symlink aliases are\n  resolved by `ArtifactIdentity.canonicalize/2` before the directory-segment\n  check. The final path component is deliberately excluded so a file named\n  `generated` (or `generated_file.ex`) is not confused with a directory.\n  \"\"\"\n  @spec output_path_admission(String.t()) ::\n          :ok | {:error, {:refused_generated_directory, String.t()}}\n  def output_path_admission(path) when is_binary(path) do\n    canonical_target = GgenIgniter.ArtifactIdentity.canonicalize(File.cwd!(), path)\n\n    if canonical_target\n       |> Path.dirname()\n       |> Path.split()\n       |> Enum.member?(\"generated\") do\n      {:error, {:refused_generated_directory, canonical_target}}\n    else\n      :ok\n    end\n  end\n\n  @doc \"\"\"\n  Fail-closed actuation-boundary form of `output_path_admission/1`.\n  \"\"\"\n  @spec admit_output_path!(String.t()) :: :ok\n  def admit_output_path!(path) when is_binary(path) do\n    case output_path_admission(path) do\n      :ok ->\n        :ok\n\n      {:error, {:refused_generated_directory, canonical_target}} ->\n        raise ArgumentError,\n              \"REFUSED generated_directory: output path #{inspect(path)} resolves through \" <>\n                \"a reserved `generated/` directory (#{inspect(canonical_target)}). \" <>\n                \"Write the projection to its canonical source location instead.\"\n    end\n  end\n\n"

abbrev pub render_anchor : String
render_anchor =
    "    renders =\n      Enum.map(rows, fn row ->\n        bindings = build_bindings(named_results, row)\n        content = Render.render(template_string, bindings)\n        out_path = if out_template, do: Render.render(out_template, bindings)\n        {bindings, content, out_path}\n      end)\n\n"

unfoldable pub render_preflight : String
render_preflight =
    render_anchor
    <> "    # Whole-plan output admission: every rendered file path is checked BEFORE\n    # reconciliation bookkeeping or the first filesystem mutation. This avoids\n    # partial actuation when a fan-out contains both lawful and forbidden paths.\n    if mode == :file do\n      Enum.each(renders, fn {_bindings, _content, out_path} ->\n        Actuate.admit_output_path!(out_path)\n      end)\n    end\n\n"

abbrev pub admit_docs_old : String
admit_docs_old =
    "  #   * no admitted item's `canonical_target` may escape the authorized\n  #     project root (`GgenIgniter.ArtifactIdentity.within_root?/2`) -- a\n"

abbrev pub admit_docs_new : String
admit_docs_new =
    "  #   * no admitted `:create`/`:replace`/`:inject` target may resolve through\n  #     a directory segment named exactly `generated` -- generated projections\n  #     must occupy their canonical source location, never a parallel generated\n  #     ownership tree. `:delete` intents are deliberately exempt so stale\n  #     historical generated/ artifacts can still be pruned during migration.\n  #   * no admitted item's `canonical_target` may escape the authorized\n  #     project root (`GgenIgniter.ArtifactIdentity.within_root?/2`) -- a\n"

abbrev pub write_pending_anchor : String
write_pending_anchor =
    "    write_pending = Enum.filter(pending, &(&1.operation in [:create, :replace, :inject]))\n    delete_pending = Enum.filter(pending, &(&1.operation == :delete))\n\n"

unfoldable pub write_pending_with_generated : String
write_pending_with_generated =
    write_pending_anchor
    <> "    generated_output =\n      Enum.find_value(write_pending, fn item ->\n        case Actuate.output_path_admission(item.target) do\n          {:error, {:refused_generated_directory, canonical_target}} -> canonical_target\n          :ok -> nil\n        end\n      end)\n\n"

abbrev pub cond_anchor : String
cond_anchor = "    cond do\n      duplicates != [] ->\n"

abbrev pub cond_generated : String
cond_generated =
    "    cond do\n      generated_output != nil ->\n        {:error, {:refused_generated_directory, generated_output}}\n\n      duplicates != [] ->\n"

abbrev pub describe_anchor : String
describe_anchor = "  defp describe_failure({:refused_path_escapes_root, canonical_target}),\n"

abbrev pub describe_generated : String
describe_generated =
    "  defp describe_failure({:refused_generated_directory, canonical_target}),\n    do:\n      \"refused: output target #{inspect(canonical_target)} resolves through a reserved `generated/` directory\"\n\n"

abbrev pub plan_docs_old : String
plan_docs_old =
    "  admission-time refusal (one of `admit_pending/2`'s own tagged reasons:\n  `:refused_duplicate_output_path` / `:refused_path_escapes_root` /\n  `:refused_unowned_delete` / `:refused_stale_outputs`).\n"

abbrev pub plan_docs_new : String
plan_docs_new =
    "  admission-time refusal (one of `admit_pending/2`'s own tagged reasons:\n  `:refused_generated_directory` / `:refused_duplicate_output_path` /\n  `:refused_path_escapes_root` / `:refused_unowned_delete` /\n  `:refused_stale_outputs`).\n"

abbrev pub policy_test : String
policy_test =
    "defmodule GgenIgniter.GeneratedDirectoryPolicyTest do\n  @moduledoc \"\"\"\n  Chicago-style proof of the reserved `generated/` output invariant: real\n  temporary directories, real files, a real filesystem symlink, the real\n  `GgenIgniter.Actuate` mutation functions, and a real Reactor admission run.\n  No mocks.\n  \"\"\"\n\n  use ExUnit.Case, async: false\n\n  alias GgenIgniter.Actuate\n  alias GgenIgniter.Reactors.ReconcileReactor\n\n  setup do\n    root =\n      Path.join(\n        System.tmp_dir!(),\n        \"ggen_igniter_generated_dir_policy_#{System.unique_integer([:positive])}\"\n      )\n\n    File.rm_rf!(root)\n    File.mkdir_p!(root)\n    on_exit(fn -> File.rm_rf!(root) end)\n    {:ok, root: root}\n  end\n\n  describe \"filesystem actuation generated/ refusal\" do\n    test \"write_new_file!/2 refuses before creating anything\", %{root: root} do\n      File.cd!(root, fn ->\n        path = Path.join([\"lib\", \"generated\", \"widget.ex\"])\n\n        assert_raise ArgumentError, ~r/REFUSED generated_directory/, fn ->\n          Actuate.write_new_file!(path, \"defmodule Widget, do: :ok\\n\")\n        end\n\n        refute File.exists?(path)\n        refute File.exists?(Path.dirname(path))\n      end)\n    end\n\n    test \"write_file!/3 refuses even under dry-run\", %{root: root} do\n      File.cd!(root, fn ->\n        path = Path.join([\"lib\", \"generated\", \"widget.ex\"])\n\n        assert_raise ArgumentError, ~r/REFUSED generated_directory/, fn ->\n          Actuate.write_file!(path, \"defmodule Widget, do: :ok\\n\", dry_run: true)\n        end\n\n        refute File.exists?(path)\n      end)\n    end\n\n    test \"inject_content!/5 refuses an existing target before mutation\", %{root: root} do\n      File.cd!(root, fn ->\n        path = Path.join([\"lib\", \"generated\", \"host.ex\"])\n        File.mkdir_p!(Path.dirname(path))\n        original = \"defmodule Host do\\n  # ggen:slot\\nend\\n\"\n        File.write!(path, original)\n\n        assert_raise ArgumentError, ~r/REFUSED generated_directory/, fn ->\n          Actuate.inject_content!(path, \"# ggen:slot\", \"  def projected, do: :ok\", :after)\n        end\n\n        assert File.read!(path) == original\n      end)\n    end\n\n    test \"canonicalization prevents a real symlink alias bypass\", %{root: root} do\n      generated_dir = Path.join(root, \"generated\")\n      alias_dir = Path.join(root, \"projection_alias\")\n      File.mkdir_p!(generated_dir)\n      File.ln_s!(generated_dir, alias_dir)\n\n      File.cd!(root, fn ->\n        path = Path.join(\"projection_alias\", \"widget.ex\")\n\n        assert_raise ArgumentError, ~r/REFUSED generated_directory/, fn ->\n          Actuate.write_file!(path, \"defmodule Widget, do: :ok\\n\")\n        end\n      end)\n\n      refute File.exists?(Path.join(generated_dir, \"widget.ex\"))\n    end\n\n    test \"a filename containing generated remains valid\", %{root: root} do\n      File.cd!(root, fn ->\n        path = Path.join(\"lib\", \"generated_file.ex\")\n\n        assert {:ok, :written} =\n                 Actuate.write_file!(path, \"defmodule GeneratedFile, do: :ok\\n\")\n\n        assert File.read!(path) == \"defmodule GeneratedFile, do: :ok\\n\"\n      end)\n    end\n  end\n\n  describe \"whole-plan admission\" do\n    test \"Reactor refuses an entire mixed plan before either target is actuated\", %{root: root} do\n      ontology = Path.join(root, \"ontology.ttl\")\n      query = Path.join(root, \"spec.rq\")\n      template = Path.join(root, \"module.ex.eex\")\n      valid_out = Path.join([root, \"lib\", \"valid.ex\"])\n      forbidden_out = Path.join([root, \"lib\", \"generated\", \"forbidden.ex\"])\n\n      File.write!(ontology, \"\"\"\n      @prefix ex: <http://example.org/generated-policy#> .\n      ex:Subject a ex:Module ; ex:moduleName \"GeneratedPolicyFixture\" .\n      \"\"\")\n\n      File.write!(query, \"\"\"\n      PREFIX ex: <http://example.org/generated-policy#>\n      SELECT ?module_name WHERE { ex:Subject ex:moduleName ?module_name . }\n      \"\"\")\n\n      File.write!(template, \"defmodule <%= module_name %>, do: nil\\n\")\n\n      opts = [\n        engine: \"sparql\",\n        ontology: ontology,\n        manifest_dir: root,\n        targets: [\n          [query: \"spec=#{query}\", template: template, out: valid_out],\n          [query: \"spec=#{query}\", template: template, out: forbidden_out]\n        ]\n      ]\n\n      assert {:error, receipt} = ReconcileReactor.run(opts)\n      assert receipt.standing == :refused\n      assert receipt.reason =~ \"reserved `generated/` directory\"\n      refute File.exists?(valid_out)\n      refute File.exists?(forbidden_out)\n    end\n  end\nend\n"
