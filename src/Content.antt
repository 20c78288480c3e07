-- ===== src/Content.antt =====
-- internal/content/content.go: Posts, Pages, and what their Publication Date says.
-- A UUID is a 128-bit number, `uuid.Nil` is 0. The result of `uuid.NewV7` is an argument.
pub mod Errors
pub mod Store
use go_personal_web.Prelude.{
  ℕ, Bool, true, false, not, Option, none, some, Bytes, ◌==◌, if◌then◌else◌, is_absent,
}
use go_personal_web.GoStd.Time.{Time, is_after}

pub data Audience : Type 0 where
  public author : Audience

abbrev pub UuidNumber : Type 0
UuidNumber = ℕ

pub record Post : Type 0 where
  pub id : UuidNumber
  pub slug : Bytes
  pub title : Bytes
  pub body : Bytes
  pub published_at : Option Time
  pub created_at : Time
  pub updated_at : Time

pub record Page : Type 0 where
  pub id : UuidNumber
  pub slug : Bytes
  pub title : Bytes
  pub body : Bytes
  pub published_at : Option Time
  pub created_at : Time
  pub updated_at : Time

-- The body of both `IsPublished` methods.
abbrev pub is_arrived : Option Time → Time → Bool
is_arrived none now = false
is_arrived (some t) now = not (is_after t now)

-- `Post.IsPublished` and `Post.IsDraft`
unfoldable pub post_is_published : Post → Time → Bool
post_is_published p now = is_arrived p.published_at now

unfoldable pub post_is_draft : Post → Bool
post_is_draft p = is_absent p.published_at

-- `Page.IsPublished` and `Page.IsDraft`
unfoldable pub page_is_published : Page → Time → Bool
page_is_published p now = is_arrived p.published_at now

unfoldable pub page_is_draft : Page → Bool
page_is_draft p = is_absent p.published_at

-- `assignV7`; `none` is the error of the generator.
unfoldable pub assign_v7 : Option UuidNumber → UuidNumber → Option UuidNumber
assign_v7 generated id = if id == 0 then generated else some id
