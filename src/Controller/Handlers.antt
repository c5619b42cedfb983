-- ===== src/Controller/Handlers.antt =====
-- The handlers that wrap a service function, of pkg/common/base_controller.go. The service's answer
-- for the request is an argument; a pointer that is nil is `none`.
use msa_core.Prelude.{ℕ, String, Bool, false, Option, none, some, List}
use msa_core.Prelude.Int.{ℤ}
use msa_core.Response.{PaginationInfo, ErrorResponse}
use msa_core.I18n.Manager.{Files, Global}
use msa_core.Controller.Reply.{
  Request, Handled, succeed, success_with_message, success_with_pagination, fail,
}
use msa_core.Controller.Query.{get_page_from_query, get_size_unlimited}

pub record Meta : Type 0 where
  pub current_page : ℤ
  pub page_size : ℤ
  pub total_pages : ℤ
  pub has_next : Bool
  pub has_prev : Bool

-- the map of a list response; a key that the handler leaves out is `none`
pub record Listing (T : Type 0) : Type 0 where
  pub content : List T
  pub total : ℤ
  pub kind : Option String
  pub pagination : Option PaginationInfo
  pub sorting : Option (String × String)
  pub meta : Option Meta

-- what stands under `data` in a response
pub data Content (T : Type 0) : Type 0 where
  object : T → Content T
  array : List T → Content T
  listing : Listing T → Content T

-- what a service function returns
pub data Served (A : Type 0) : Type 0 where
  served : A → Served A
  failed : ErrorResponse → Served A

abbrev plain_listing : {T : Type 0} → List T → ℤ → Listing T
plain_listing content total = record {
  content = content;
  total = total;
  kind = none;
  pagination = none;
  sorting = none;
  meta = none;
}

module _ {T : Type 0} (fs : Files) (now : ℕ) where
  unfoldable pub response_array : Served (List T) → Request → Global → Handled (Content T)
  response_array (failed e) c = fail fs now c e false
  response_array (served body) c = succeed fs now c (some (array body))

  unfoldable pub response_array_with_message :
      Served (List T) → String → Request → Global → Handled (Content T)
  response_array_with_message (failed e) message_key c = fail fs now c e false
  response_array_with_message (served body) message_key c =
      success_with_message fs now c (some (array body)) message_key

  unfoldable pub response_list : Served (List T × ℤ) → Request → Global → Handled (Content T)
  response_list (failed e) c = fail fs now c e false
  response_list (served (body, total)) c =
      succeed fs now c (some (listing (plain_listing body total)))

  unfoldable pub response_list_with_message :
      Served (List T × ℤ) → String → Request → Global → Handled (Content T)
  response_list_with_message (failed e) message_key c = fail fs now c e false
  response_list_with_message (served (body, total)) message_key c =
      success_with_message fs now c (some (listing (plain_listing body total))) message_key

  unfoldable pub response_object : Served T → Request → Global → Handled (Content T)
  response_object (failed e) c = fail fs now c e false
  response_object (served body) c = succeed fs now c (some (object body))

  unfoldable pub response_object_with_message :
      Served T → String → Request → Global → Handled (Content T)
  response_object_with_message (failed e) message_key c = fail fs now c e false
  response_object_with_message (served body) message_key c =
      success_with_message fs now c (some (object body)) message_key

  abbrev pointed : Option T → Option (Content T)
  pointed none = none
  pointed (some body) = some (object body)

  unfoldable pub response_pointer : Served (Option T) → Request → Global → Handled (Content T)
  response_pointer (failed e) c = fail fs now c e false
  response_pointer (served body) c = succeed fs now c (pointed body)

  unfoldable pub response_success_only :
      Option ErrorResponse → Request → Global → Handled (Content T)
  response_success_only (some e) c = fail fs now c e false
  response_success_only none c = succeed fs now c none

  unfoldable pub response_page : Served (List T × ℤ) → Request → Global → Handled (Content T)
  response_page (failed e) c = fail fs now c e false
  response_page (served (content, total)) c =
      success_with_pagination fs now c (some (array content)) total (get_page_from_query c)
        (get_size_unlimited c) "response.success.retrieved"

  unfoldable pub response_created : Request → Option (Content T) → Global → Handled (Content T)
  response_created c v = success_with_message fs now c v "response.success.created"

  unfoldable pub response_updated : Request → Option (Content T) → Global → Handled (Content T)
  response_updated c v = success_with_message fs now c v "response.success.updated"

  unfoldable pub response_deleted : Request → Global → Handled (Content T)
  response_deleted c = success_with_message fs now c none "response.success.deleted"

  unfoldable pub response_retrieved : Request → Option (Content T) → Global → Handled (Content T)
  response_retrieved c v = success_with_message fs now c v "response.success.retrieved"
