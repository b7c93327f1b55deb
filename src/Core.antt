-- ===== src/Core.antt =====
-- The types of the package core, core/types.go, as far as the host reads them. The kinds of access
-- are constants of the module fluxplane-datasource: they are constructors here, beside the blank
-- text and any other text.
use fluxplane_dex.Prelude.{ℕ, String, Bool, ◌&&◌, Option, List, [], ◌==◌, nat_eq, trim_space}
use fluxplane_dex.Prelude.Unique.{collect}
use fluxplane_dex.Maps.{Map}

pub data OperationAccess : Type 0 where
  no_access : OperationAccess
  auth : OperationAccess
  secret : OperationAccess
  network : OperationAccess
  provider : OperationAccess
  process : OperationAccess
  browser : OperationAccess
  filesystem : OperationAccess
  local_system : OperationAccess
  other_access : String → OperationAccess

abbrev pub access_tag : OperationAccess → ℕ
access_tag no_access = 1
access_tag auth = 2
access_tag secret = 3
access_tag network = 4
access_tag provider = 5
access_tag process = 6
access_tag browser = 7
access_tag filesystem = 8
access_tag local_system = 9
access_tag (other_access s) = 0

abbrev pub access_word : OperationAccess → String
access_word (other_access s) = s
access_word _ = ""

-- equality of two kinds of access
unfoldable pub same_access : OperationAccess → OperationAccess → Bool
same_access a b = nat_eq (access_tag a) (access_tag b) && access_word a == access_word b

abbrev pub OperationEffect : Type 0
OperationEffect = String

pub record OperationRenderSpec : Type 0 where
  pub preferred : String
  pub formats : List String

pub record OperationSpec : Type 0 where
  pub name : String
  pub description : String
  pub input : String
  pub output : String
  pub read_only : Bool
  pub compact : Bool
  pub secret_purposes : List String
  pub effects : List OperationEffect
  pub risk : String
  pub idempotency : String
  pub access : List OperationAccess
  pub auth_scopes : List String
  pub render : Option OperationRenderSpec

pub record AuthField : Type 0 where
  pub name : String
  pub description : String
  pub required : Bool
  pub sensitive : Bool
  pub is_secret : Bool
  pub env : List String

pub record AuthMethod : Type 0 where
  pub name : String
  pub description : String
  pub env : List String
  pub fields : List AuthField

-- a relation of a datasource to the records of an entity
pub record DatasourceRelation : Type 0 where
  pub field : String
  pub entity : String

-- datasource.Declaration; the entity schema is the list of the names of its fields
pub record DatasourceSpec : Type 0 where
  pub name : String
  pub entity : String
  pub capabilities : List String
  pub access : List OperationAccess
  pub secret_purposes : List String
  pub entity_schema : Option (List String)
  pub relations : List DatasourceRelation

pub record IndexSpec : Type 0 where
  pub name : String
  pub description : String
  pub entities : List String

pub record PluginManifest : Type 0 where
  pub name : String
  pub operations : List OperationSpec
  pub auth_methods : List AuthMethod
  pub datasources : List DatasourceSpec
  pub indexes : List IndexSpec
  pub metadata : Map String

-- trimStrings
unfoldable pub trim_strings : List String → List String
trim_strings values = collect ◌==◌ trim_space (λ v. v == "") [] values
