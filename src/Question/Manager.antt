-- ===== src/Question/Manager.antt =====
-- services/managers/QuestionManager.ts: updateQuestion and deleteQuestion. The repository of
-- answers, the search index, the cache and the store of files are parameters. `Db` is all that they
-- keep, together with the database. What is logged is left out, and so are the checks for a missing
-- question or answer inside the loops: findById throws where there is none.
use qa_api.Common.{
  ℕ, suc, String, Bool, true, false, not, ◌===◌, ◌+++◌, if◌then◌else◌, Option, none, some, List, [],
  ◌∷◌, select, any,
}
use qa_api.Content.{AncestorReference, Answer}
use qa_api.Effect.{ok, Action, pure, throw_if, is_object, ◌>>=◌, ◌>>◌}
use qa_api.Error.Application.{not_found_error}
use qa_api.Account.Source.{Field, undefined, null, value}
use qa_api.Ancestry.Chain.{listed}
use qa_api.Answer.Manager.{Sync, update, delete}
use qa_api.Question.Table.{Table}
use qa_api.Question.Source.{
  Thumbnail, QuestionModel, QuestionPatch, no_change, find_by_id, find_all, update_by_id,
  delete_by_id, find_by_parent,
}

-- The calls of `IAnswerRepository`; an update names the ancestors alone.
pub record AnswerRepository (Db : Type 0) : Type 0 where
  pub find_by_question : String → Action Db (List Answer)
  pub find_all : Action Db (List Answer)
  pub find_by_id : String → Action Db Answer
  pub update_ancestors : String → List AncestorReference → Action Db Answer

-- The index of questions and that of answers, with their projectors; the cache; the files of
-- questions, by key, owner and question.
pub record Services (Db Doc : Type 0) : Type 0 where
  pub sync_question : Sync Doc → Action Db (Unit {0})
  pub sync_answer : Sync Doc → Action Db (Unit {0})
  pub project_question : QuestionModel → Doc
  pub project_answer : Answer → Doc
  pub forget_key : String → Action Db (Unit {0})
  pub delete_asset : String → String → String → Action Db (Unit {0})
  pub get_asset_url : String → String → String → Action Db String

-- `UpdateQuestionDTO`
pub record UpdateQuestion : Type 0 where
  pub title : Option String
  pub content : Option String
  pub thumbnail_key : Option String
  pub remove_thumbnail : Bool

-- A loop that awaits one call after the other.
abbrev pub each : {Db A : Type 0} → (A → Action Db (Unit {0})) → List A → Action Db (Unit {0})
each f [] = pure tt
each f (x ∷ xs) = do f x; each f xs

abbrev pub is_entry : String → AncestorReference → Bool
is_entry id a = a.id === id

-- `ancestors?.some(ancestor => ancestor.id === questionId)`
abbrev pub names : String → Option (List AncestorReference) → Bool
names id xs = any (is_entry id) (listed xs)

-- `ancestors?.filter(ancestor => ancestor.id !== questionId) || []`
abbrev pub stripped : String → Option (List AncestorReference) → List AncestorReference
stripped id xs = select (λ a. not (is_entry id a)) (listed xs)

-- `map((ancestor, index) => ({ ...ancestor, depth: index }))`
abbrev pub reindexed : ℕ → List AncestorReference → List AncestorReference
reindexed n [] = []
reindexed n (a ∷ rest) = record a { depth = n } ∷ reindexed (suc n) rest

abbrev pub given_text : Option String → Option String
given_text none = none
given_text (some s) = if s === "" then none else some s

module _ {Db Doc : Type 0} (t : Table Db) (answers : AnswerRepository Db)
    (services : Services Db Doc) where
  -- The error of a file that cannot be deleted is caught.
  unfoldable pub safe_delete_asset : String → String → String → Action Db (Unit {0})
  safe_delete_asset key owner id db =
      let (_, db') = services.delete_asset key owner id db in (ok tt, db')

  -- `thumbnail?.key`
  abbrev pub key_of : Option Thumbnail → Option String
  key_of none = none
  key_of (some x) = given_text (some x.key)

  abbrev delete_key : Option String → QuestionModel → Action Db (Unit {0})
  unfolding safe_delete_asset
  delete_key none q = pure tt
  delete_key (some key) q = safe_delete_asset key q.user q.id

  unfoldable pub delete_thumbnail_if_exists : QuestionModel → Action Db (Unit {0})
  unfolding safe_delete_asset
  delete_thumbnail_if_exists q = delete_key (key_of q.thumbnail) q

  unfoldable pub build_thumbnail : String → QuestionModel → Action Db Thumbnail
  build_thumbnail key q = do
    url ← services.get_asset_url key q.user q.id
    pure (record { key = key; url = some url })

  -- The old file of a new thumbnail, unless it is the same.
  abbrev other_key : String → Option String → Option String
  other_key key none = none
  other_key key (some old) = if old === key then none else some old

  -- The field `thumbnail` of the update, with what is done to the files.
  abbrev pub thumbnail_update : Option String → Bool → QuestionModel → Action Db (Field Thumbnail)
  unfolding safe_delete_asset build_thumbnail delete_thumbnail_if_exists
  thumbnail_update (some key) _ q = do
    delete_key (other_key key (key_of q.thumbnail)) q
    thumbnail ← build_thumbnail key q
    pure (value thumbnail)
  thumbnail_update none true q = do delete_thumbnail_if_exists q; pure null
  thumbnail_update none false q = pure undefined

  -- `Object.keys(updates).length > 0`
  abbrev pub is_update : QuestionPatch → Bool
  is_update d = elim d.title [
    | some _ ↦ true
    | none ↦ elim d.content [
      | some _ ↦ true
      | none ↦ elim d.thumbnail [ undefined ↦ false | null ↦ true | value _ ↦ true ]
    ]
  ]

  abbrev apply_update : QuestionModel → String → QuestionPatch → Action Db QuestionModel
  unfolding update_by_id
  apply_update old id d db = elim (is_update d) [
    | true ↦ update_by_id t id d db
    | false ↦ (ok old, db)
  ]

  unfoldable pub update_question : String → UpdateQuestion → Action Db QuestionModel
  unfolding find_by_id update_by_id safe_delete_asset build_thumbnail delete_thumbnail_if_exists
  update_question id d = do
    old ← find_by_id t id
    thumbnail ← thumbnail_update (given_text d.thumbnail_key) d.remove_thumbnail old
    q ←
        apply_update old id
          (record no_change { title = d.title; content = d.content; thumbnail = thumbnail })
    services.forget_key "questions:all"
    services.sync_question (update (services.project_question q))
    pure q

  -- One child of the deleted question: `parent: undefined`, and the ancestors without it.
  unfoldable pub detach : String → QuestionModel → Action Db (Unit {0})
  unfolding find_by_id update_by_id
  detach id child = do
    update_by_id t child.id (record no_change { ancestors = some (stripped id child.ancestors) })
    updated ← find_by_id t child.id
    services.sync_question (update (services.project_question updated))

  -- One question that has the deleted one among its ancestors.
  unfoldable pub forget_in_question : String → QuestionModel → Action Db (Unit {0})
  unfolding find_by_id update_by_id
  forget_in_question id q = do
    update_by_id t q.id
        (record no_change { ancestors = some (reindexed 0 (stripped id q.ancestors)) })
    updated ← find_by_id t q.id
    services.sync_question (update (services.project_question updated))

  unfoldable pub forget_in_answer : String → Answer → Action Db (Unit {0})
  forget_in_answer id a = do
    answers.update_ancestors a.id (reindexed 0 (stripped id a.ancestors))
    updated ← answers.find_by_id a.id
    services.sync_answer (update (services.project_answer updated))

  -- Steps 1 and 2 of `deleteQuestion`: the answers leave the index, the children are detached.
  unfoldable pub unlist_and_detach : String → Action Db (Unit {0})
  unfolding find_by_parent detach
  unlist_and_detach id = do
    its_answers ← answers.find_by_question id
    each (λ a. services.sync_answer (delete a.id)) its_answers
    children ← find_by_parent t id
    each (detach id) children

  -- Step 3: every chain of ancestors.
  unfoldable pub forget_everywhere : String → Action Db (Unit {0})
  unfolding find_all forget_in_question forget_in_answer
  forget_everywhere id = do
    all_questions ← find_all t
    all_answers ← answers.find_all
    each (forget_in_question id) (select (λ q. names id q.ancestors) all_questions)
    each (forget_in_answer id) (select (λ a. names id a.ancestors) all_answers)

  -- Steps 4 to 7.
  unfoldable pub remove : String → QuestionModel → Action Db QuestionModel
  unfolding delete_by_id delete_thumbnail_if_exists
  remove id q = do
    deleted ← delete_by_id t id
    delete_thumbnail_if_exists deleted
    services.forget_key "questions:all"
    services.forget_key ("question:" +++ id)
    services.forget_key ("questions:user:" +++ q.user)
    services.sync_question (delete id)
    pure deleted

  unfoldable pub delete_question : String → Action Db QuestionModel
  unfolding find_by_id unlist_and_detach forget_everywhere remove
  delete_question id = do
    q ← find_by_id t id
    throw_if (not (is_object q)) (not_found_error "Question not found")
    unlist_and_detach id
    forget_everywhere id
    remove id q
