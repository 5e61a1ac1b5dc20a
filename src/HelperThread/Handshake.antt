-- ===== src/HelperThread/Handshake.antt =====
-- The handshake of a control connection.
use mathlib.Core.Path.{subst}
use hotwired.Collection.Keys.{collection_key}
use hotwired.Collection.Removal.{remove_lem}
use hotwired.Collection.View.{IsWellFormed, view}
use hotwired.ConnectionManager.{Connection}
use hotwired.ConnectionManager
use hotwired.FileOps.{FileSystem}
use hotwired.HelperThread.{
  Service, Control, trtp_hotl, trtp, control_hello, failed_handshake, with_connections, greet,
  greeted, ht_control_connect, closed_by,
}
use hotwired.Multiplexer.{mplx_rd, multiplexer_add}
use hotwired.Permissions.{same_bytes}
use hotwired.Prelude.Bytes.{get16}
use hotwired.Prelude.{
  ℕ, ◌≤◌, ◌<◌, ◌+◌, ◌≡◌, refl, ap, sym, ◌∙◌, Option, none, some, List, [], ◌++◌, length, All, Bool,
  true, false, Bool-cases, inl, inr, if◌then◌else◌,
}
use hotwired.Socket.Delivery.{sum, write_all_lem}
use hotwired.Socket.Reassembly.{IsOpen, Reads, read_exact}
use hotwired.Socket.{Socket, read_all, read_int16, write_all}
use mathlib.Core.List.{flatten, append-nil}

read_half :
    (bs rest : List ℕ) (sock : Socket)
    → length bs ≡ 2
    → IsOpen sock
    → flatten sock ≡ bs ++ rest
    → (v : ℕ) × (t : Socket) × (read_int16 sock ≡ some (v, t)) × (flatten t ≡ rest) × IsOpen t
unfolding read_int16
read_half bs rest sock two o e =
    let (t, read, left, opened) =
      subst (λ n. Reads (read_all n sock) bs rest) two (read_exact bs rest sock o e) in
    (get16 bs, t, rw read refl, left, opened)

abbrev IsHello : Bool → Option (ℕ × Socket) → List ℕ → Type 0
IsHello accepts r rest =
    if accepts
    then ((v : ℕ) × (sock : Socket) × (r ≡ some (v, sock)) × (flatten sock ≡ rest))
    else r ≡ none

control_hello_lem :
    (hello first second rest : List ℕ) (sock : Socket)
    → length hello ≡ 8
    → length first ≡ 2
    → length second ≡ 2
    → IsOpen sock
    → flatten sock ≡ hello ++ (first ++ (second ++ rest))
    → IsHello (same_bytes trtp_hotl hello) (control_hello sock) rest
unfolding control_hello
control_hello_lem hello first second rest sock h f g o e =
    let (s1, read1, left1, o1) =
      subst (λ n. Reads (read_all n sock) hello (first ++ (second ++ rest))) h
        (read_exact hello (first ++ (second ++ rest)) sock o e) in
    let (v, s2, read2, left2, o2) = read_half first (second ++ rest) s1 f o1 left1 in
    let (w, s3, read3, left3, o3) = read_half second rest s2 g o2 left2 in
    elim (Bool-cases (same_bytes trtp_hotl hello)) [
      | inl same ↦ rw (read1, same, read2) (w, s3, read3, left3)
      | inr other ↦ rw (read1, other) refl
    ]

abbrev pub accepted : {F : FileSystem} → Service F → ℕ → Control F
accepted s fd = record {
  service = record s { multiplexer = multiplexer_add s.multiplexer fd mplx_rd };
  sent = trtp;
  closes = 0;
}

abbrev pub refused : {F : FileSystem} → Service F → ℕ → Control F
refused s fd = record {
  service = with_connections s (ConnectionManager.remove s.site.server.connections fd).0;
  sent = [];
  closes = 2;
}

remove_known :
    (ctbl : ConnectionManager.Connections) (fd : ℕ) (c : Connection)
    → IsWellFormed ctbl
    → view ctbl fd ≡ some c
    → (ConnectionManager.remove ctbl fd).1 ≡ true
unfolding ConnectionManager.remove
remove_known ctbl fd c w known =
    rw ((remove_lem ctbl fd w).0 ∙ known, ConnectionManager.remove) refl

sent_whole :
    (answers : List ℕ)
    → All (λ n. 0 < n) answers
    → 8 ≤ sum answers
    → write_all trtp answers ≡ (trtp, true)
sent_whole answers p enough =
    let (sends, complete) = write_all_lem trtp answers in
    let done = complete p enough in
    let all =
      sym (append-nil (write_all trtp answers).0)
      ∙ ap (λ l. (write_all trtp answers).0 ++ l) (sym (sends.complete done))
      ∙ sends.front in
    ap (λ l. (l, (write_all trtp answers).1)) all ∙ ap (λ b. (trtp, b)) done

failed_handshake-refused :
    {F : FileSystem} (s : Service F) (fd : ℕ)
    → (ConnectionManager.remove s.site.server.connections fd).1 ≡ true
    → failed_handshake s fd [] ≡ refused s fd
unfolding failed_handshake
failed_handshake-refused s fd removed =
    ap
      (λ b. record {
        service = with_connections s (ConnectionManager.remove s.site.server.connections fd).0;
        sent = [];
        closes = closed_by b + 1;
      })
      removed

greet_lem :
    {F : FileSystem} (s : Service F) (fd : ℕ) (answers : List ℕ) (accepts : Bool)
    (r : Option (ℕ × Socket)) (rest : List ℕ)
    → write_all trtp answers ≡ (trtp, true)
    → (ConnectionManager.remove s.site.server.connections fd).1 ≡ true
    → IsHello accepts r rest
    → greet s fd answers r ≡ (if accepts then accepted s fd else refused s fd)
greet_lem s fd answers true r rest whole removed (v, sock, e, left) =
    ap (greet s fd answers) e ∙ ap (greeted s fd) whole
greet_lem s fd answers false r rest whole removed e =
    ap (greet s fd answers) e ∙ failed_handshake-refused s fd removed

-- Of a connection in the table, ht_control_connect accepts exactly the first 8 bytes TRTPHOTL, in
-- whatever pieces these and the next four bytes arrive: it answers with TRTP and four zero bytes, where
-- the sends take these in all, and waits for messages. With other bytes it takes the connection from the
-- table, sends nothing, and closes the descriptor twice, since cm_remove has closed it.
pub ht_control_connect_lem :
    {F : FileSystem} (s : Service F) (fd : ℕ) (c : Connection)
    (hello first second rest answers : List ℕ) (sock : Socket)
    → IsWellFormed s.site.server.connections
    → view s.site.server.connections fd ≡ some c
    → length hello ≡ 8
    → length first ≡ 2
    → length second ≡ 2
    → IsOpen sock
    → flatten sock ≡ hello ++ (first ++ (second ++ rest))
    → All (λ n. 0 < n) answers
    → 8 ≤ sum answers
    → ht_control_connect s fd sock answers
      ≡ (if same_bytes trtp_hotl hello then accepted s fd else refused s fd)
unfolding ht_control_connect
ht_control_connect_lem s fd c hello first second rest answers sock w known h f g o e p enough =
    greet_lem s fd answers (same_bytes trtp_hotl hello) (control_hello sock) rest
      (sent_whole answers p enough) (remove_known s.site.server.connections fd c w known)
      (control_hello_lem hello first second rest sock h f g o e)
