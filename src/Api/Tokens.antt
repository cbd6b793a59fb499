-- ===== src/Api/Tokens.antt =====
-- api/v1beta1/ktsubjecttoken_types.go
use kt_cloud_operator.Common.{String, Bool}
use kt_cloud_operator.Api.Meta.{TypeMeta, ObjectMeta}

pub record ClusterRef : Type 0 where
  pub api_version : String
  pub kind : String
  pub name : String

pub record Token : Type 0 where
  pub expires_at : String
  pub is_domain : Bool

pub record KtSubjectTokenSpec : Type 0 where
  pub subject_token : String
  pub token : Token
  pub cluster_ref : ClusterRef

pub record KtSubjectTokenStatus : Type 0 where
  pub subject_token : String
  pub token : Token
  pub created_at : String

pub record KtSubjectToken : Type 0 where
  pub type_meta : TypeMeta
  pub meta : ObjectMeta
  pub spec : KtSubjectTokenSpec
  pub status : KtSubjectTokenStatus
