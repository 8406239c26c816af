-- ===== src/Content.antt =====
-- types/content and models/interfaces: questions and answers, and the references between them.
use qa_api.Common.{ℕ, String, Bool, Option, List}

-- `ContentType`
pub data ContentType : Type 0 where
  question answer : ContentType

pub record ParentReference : Type 0 where
  pub id : String
  pub type : ContentType

pub record AncestorReference : Type 0 where
  pub id : String
  pub type : ContentType
  pub depth : ℕ

-- `IAnswerModel`, without the parts that are joined in for display, relatedContents and
-- updatedAt. Dates are milliseconds.
pub record Answer : Type 0 where
  pub id : String
  pub content : String
  pub user : String
  pub question : String
  pub likes : List String
  pub dislikes : List String
  pub is_accepted : Bool
  pub created_at : ℕ
  pub parent : Option ParentReference
  pub ancestors : Option (List AncestorReference)

-- The part of `IQuestionModel` that answers refer to.
pub record Question : Type 0 where
  pub id : String
  pub parent : Option ParentReference
  pub ancestors : Option (List AncestorReference)
  pub answers : List String
