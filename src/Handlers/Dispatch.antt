-- ===== src/Handlers/Dispatch.antt =====
-- `transaction_list`, `th_init` and the lookup of `th_exec`.
use hotwired.Collection
use hotwired.Collection.Keys.{collection_key}
use hotwired.Collection.Operations.{InsertResult, create-IsWellFormed, insert_lem}
use hotwired.Collection.Removal.{lookup_lem}
use hotwired.Collection.View.{IsWellFormed, view}
use hotwired.Collection.{Collection}
use hotwired.Prelude.{
  ℕ, ◌≡◌, refl, sym, ap, ◌∙◌, Bool-cases, Option-cases, inl, inr, Option, none, some, List, [], ◌∷◌,
  ◌==◌, if◌then◌else◌,
}
use mathlib.Core.Path.{subst}

-- The functions whose addresses the table holds.
pub data Handler : Type 0 where
  login_handler : Handler
  info_handler : Handler
  userlist_handler : Handler
  filelist_handler : Handler
  download_handler : Handler
  upload_handler : Handler
  download_folder_handler : Handler
  upload_folder_handler : Handler
  xfer_cancel_handler : Handler
  create_folder_handler : Handler
  delete_handler : Handler
  move_handler : Handler
  rename_handler : Handler
  file_info_handler : Handler
  read_account_handler : Handler
  create_account_handler : Handler
  modify_account_handler : Handler
  delete_account_handler : Handler
  admin_accounts_handler : Handler
  admin_submit_handler : Handler
  kick_user_handler : Handler
  user_info_handler : Handler
  broadcast_handler : Handler
  send_chat_handler : Handler
  send_privmsg_handler : Handler
  request_chat_handler : Handler
  get_news_bundle_handler : Handler
  ping_handler : Handler

abbrev pub transaction_list : List (ℕ × Handler)
transaction_list =
    (107, login_handler)
    ∷ (121, info_handler)
    ∷ (304, info_handler)
    ∷ (300, userlist_handler)
    ∷ (200, filelist_handler)
    ∷ (202, download_handler)
    ∷ (203, upload_handler)
    ∷ (210, download_folder_handler)
    ∷ (213, upload_folder_handler)
    ∷ (214, xfer_cancel_handler)
    ∷ (205, create_folder_handler)
    ∷ (204, delete_handler)
    ∷ (208, move_handler)
    ∷ (207, rename_handler)
    ∷ (206, file_info_handler)
    ∷ (352, read_account_handler)
    ∷ (350, create_account_handler)
    ∷ (353, modify_account_handler)
    ∷ (351, delete_account_handler)
    ∷ (348, admin_accounts_handler)
    ∷ (349, admin_submit_handler)
    ∷ (110, kick_user_handler)
    ∷ (303, user_info_handler)
    ∷ (355, broadcast_handler)
    ∷ (105, send_chat_handler)
    ∷ (108, send_privmsg_handler)
    ∷ (112, request_chat_handler)
    ∷ (370, get_news_bundle_handler)
    ∷ (500, ping_handler)
    ∷ []

-- The loop of `th_init`.
unfoldable pub insert_handlers : Collection ℕ Handler → List (ℕ × Handler) → Collection ℕ Handler
insert_handlers table [] = table
insert_handlers table (e ∷ l) = insert_handlers (Collection.insert table e.0 e.1).0 l

unfoldable pub th_init : Collection ℕ Handler
th_init = insert_handlers Collection.create transaction_list

-- The first lines of `th_exec`: the handler, or none for the error reply.
unfoldable pub find_handler : Collection ℕ Handler → ℕ → Collection ℕ Handler × Option Handler
find_handler transaction_table id = Collection.lookup transaction_table id

-- The first entry of an id.
unfoldable pub listed : ℕ → List (ℕ × Handler) → Option Handler
listed id [] = none
listed id (e ∷ l) = let rest = listed id l in if id == e.0 then some e.1 else rest

abbrev or_listed : Option Handler → Option Handler → Option Handler
or_listed none o = o
or_listed (some h) o = some h

or_listed-none : (o : Option Handler) → or_listed o none ≡ o
or_listed-none none = refl
or_listed-none (some h) = refl

insert-listed :
    (table : Collection ℕ Handler) (e : ℕ × Handler) (l : List (ℕ × Handler)) (id : ℕ)
    → IsWellFormed table
    → IsWellFormed (Collection.insert table e.0 e.1).0
      × (or_listed (view (Collection.insert table e.0 e.1).0 id) (listed id l)
          ≡ or_listed (view table id) (listed id (e ∷ l)))
unfolding listed
insert-listed table e l id w =
    let done = insert_lem table e.0 e.1 w in
    elim (Option-cases (view table e.0)) [
      | inl free ↦
          let r =
            subst (λ o. InsertResult table e.0 e.1 o (Collection.insert table e.0 e.1)) free done in
          (
            r.1.valid,
            elim (Bool-cases (collection_key.same id e.0)) [
              | inl hit ↦
                  let none_yet = ap (view table) ((collection_key.same_iff id e.0).0 hit) ∙ free in
                  rw (r.1.views id, hit, none_yet) refl
              | inr miss ↦ rw (r.1.views id, miss) refl
            ],
          )
      | inr (old, taken) ↦
          let r =
            subst (λ o. InsertResult table e.0 e.1 o (Collection.insert table e.0 e.1)) taken
              done in
          (
            r.1.valid,
            elim (Bool-cases (collection_key.same id e.0)) [
              | inl hit ↦
                  let there = ap (view table) ((collection_key.same_iff id e.0).0 hit) ∙ taken in
                  rw (r.1.same_view id, there) refl
              | inr miss ↦ rw (r.1.same_view id, miss) refl
            ],
          )
    ]

insert_handlers-listed :
    (table : Collection ℕ Handler) (l : List (ℕ × Handler)) (id : ℕ)
    → IsWellFormed table
    → IsWellFormed (insert_handlers table l)
      × (view (insert_handlers table l) id ≡ or_listed (view table id) (listed id l))
unfolding insert_handlers listed
insert_handlers-listed table [] id w = (w, sym (or_listed-none (view table id)))
insert_handlers-listed table (e ∷ l) id w =
    let (ok, same) = insert-listed table e l id w in
    let (done, reads) = insert_handlers-listed (Collection.insert table e.0 e.1).0 l id ok in
    (done, reads ∙ same)

-- In the table that th_init makes, th_exec finds for every id of a message the handler of that id in
-- transaction_list, and none exactly where the list has no entry of the id.
pub find_handler-th_init : (id : ℕ) → (find_handler th_init id).1 ≡ listed id transaction_list
unfolding find_handler th_init
find_handler-th_init id =
    let (empty, size, reads) = create-IsWellFormed {V = Handler} in
    let (done, found) = insert_handlers-listed Collection.create transaction_list id empty in
    (lookup_lem (insert_handlers Collection.create transaction_list) id done).0
    ∙ found
    ∙ ap (λ o. or_listed o (listed id transaction_list)) (reads id)
