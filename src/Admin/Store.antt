-- ===== src/Admin/Store.antt =====
-- internal/admin/admin.go: the store that Admin asks for (ADR-0016), and internal/content's store as
-- one. A write returns the state after it with the row as stored, whose ID the caller reads back.
use go_personal_web.Prelude.{List, Bytes}
use go_personal_web.Content.{Audience, UuidNumber, Post, Page}
use go_personal_web.Content.Errors.{Result}
use go_personal_web.Content.Store.{Conn, Listing}
use go_personal_web.Content.Store as Rows

pub record Store : Type 1 where
  pub State : Type 0
  pub find_posts : State → Audience → Listing → Result (List Post)
  pub find_pages : State → Audience → Listing → Result (List Page)
  pub post_by_id : State → UuidNumber → Audience → Result Post
  pub page_by_id : State → UuidNumber → Audience → Result Page
  pub create_post : State → Post → State × Result Post
  pub update_post : State → Post → State × Result Post
  pub create_page : State → Page → State × Result Page
  pub update_page : State → Page → State × Result Page

-- `*content.Store` satisfies the interface.
unfoldable pub content_store : Conn → (UuidNumber → Bytes) → Store
content_store c print_id = record {
  State = c.State;
  find_posts = Rows.find_posts c print_id;
  find_pages = Rows.find_pages c print_id;
  post_by_id = Rows.post_by_id c print_id;
  page_by_id = Rows.page_by_id c print_id;
  create_post = Rows.create_post c print_id;
  update_post = Rows.update_post c print_id;
  create_page = Rows.create_page c print_id;
  update_page = Rows.update_page c print_id;
}
