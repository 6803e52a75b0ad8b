-- ===== src/Gateway/Manifest.antt =====
-- crates/evo-gateway/src/manifest.rs. The parser of TOML is the parameter `parse`, and `Json` holds
-- the functions of `serde_json` that the code uses.
use text.Mathlib.Text.{starts_with}
use evowork.Prelude.{
  String, Option, none, some, Bool, false, not, List, [], ◌∷◌, if◌then◌else◌, filter_map,
}
use evowork.Prelude.BTreeMap.{BTreeMap, insert}
use evowork.Prelude.Results.{Result}
use evowork.Protocol.Base.{ToolId}
use evowork.Protocol.Effect.{EffectClass, EgressRef, ResourceOp, ResourceRef}

-- `serde_json::Value` with `pointer` and `as_str`.
pub record Json : Type 1 where
  pub Value : Type 0
  pub pointer : Value → String → Option Value
  pub as_str : Value → Option String

pub data TargetSpec : Type 0 where
  from_param : String → String → ResourceOp → TargetSpec
  literal : String → String → ResourceOp → TargetSpec

pub record ToolManifest : Type 0 where
  pub name : String
  pub class : EffectClass
  pub reversible : Bool
  pub targets : List TargetSpec
  pub egress : List EgressRef
  pub preview : Option String

pub record ManifestFile : Type 0 where
  pub methods : List ToolManifest

pub data ManifestError : Type 0 where
  toml : String → ManifestError
  io : String → ManifestError
  invalid_pointer : String → String → ManifestError

pub record ManifestRegistry : Type 0 where
  pub by_name : BTreeMap ToolManifest

resource : String → ResourceOp → String → ResourceRef × ResourceOp
resource kind op id = (record { kind = kind; id = id }, op)

module _ (json : Json) where
  open json use {Value, pointer, as_str}

  -- `params.pointer(p)?.as_str()?`
  pub text_at : Value → String → Option String
  text_at params p = elim (pointer params p) [ none ↦ none | some v ↦ as_str v ]

  unfoldable pub resolve : Value → TargetSpec → Option (ResourceRef × ResourceOp)
  unfolding resource
  resolve params (TargetSpec.from_param p kind op) = elim (text_at params p) [
    | none ↦ none
    | some id ↦ some (resource kind op id)
  ]
  resolve params (TargetSpec.literal id kind op) = some (resource kind op id)

  abbrev pub resolve_all : Value → ToolManifest → List (ResourceRef × ResourceOp)
  resolve_all params manifest = filter_map (resolve params) manifest.targets

-- The first target of a manifest whose pointer does not begin with a slash.
unfoldable pub bad_pointer : List TargetSpec → Option String
bad_pointer [] = none
bad_pointer (TargetSpec.from_param p kind op ∷ targets) =
    if not (starts_with p "/") then some p else bad_pointer targets
bad_pointer (TargetSpec.literal id kind op ∷ targets) = bad_pointer targets

unfoldable pub bad_method : List ToolManifest → Option ManifestError
bad_method [] = none
bad_method (m ∷ methods) = elim (bad_pointer m.targets) [
  | none ↦ bad_method methods
  | some p ↦ some (ManifestError.invalid_pointer m.name p)
]

-- Collecting pairs into the map: a later method replaces an earlier one of its name.
unfoldable pub collect : List ToolManifest → BTreeMap ToolManifest → BTreeMap ToolManifest
collect [] m = m
collect (t ∷ methods) m = collect methods (insert t.name t m)

build : List ToolManifest → Option ManifestError → Result ManifestRegistry ManifestError
build methods none = Result.ok (record { by_name = collect methods [] })
build methods (some e) = Result.err e

unfoldable pub checked : Result ManifestFile ManifestError → Result ManifestRegistry ManifestError
unfolding build
checked (Result.ok file) = build file.methods (bad_method file.methods)
checked (Result.err e) = Result.err e

unfoldable pub from_toml_str :
    (String → Result ManifestFile ManifestError) → String → Result ManifestRegistry ManifestError
from_toml_str parse s = checked (parse s)

-- A tool with no manifest is treated as the strictest one.
unfoldable pub strictest_default : ToolId → ToolManifest
strictest_default tool = record {
  name = tool;
  class = EffectClass.external;
  reversible = false;
  targets = [];
  egress = [];
  preview = none;
}
