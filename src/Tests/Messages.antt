-- ===== src/Tests/Messages.antt =====
-- Transaction.c and socketops.c.
use mathlib.Core.List.{flatten}
use hotwired.Prelude.{ℕ, ◌≡◌, refl, List, [], ◌∷◌, ◌++◌, length, take, drop, All, arith}
use hotwired.Prelude.Int.{◌+ℤ◌, ◌-ℤ◌}
use hotwired.Prelude.Bytes.{be32}
use hotwired.Socket.{read_all}
use hotwired.Transaction.{
  TransactionObject, TransactionIn, TransactionOut, reply_create, create, add_object, write, read,
  parse_objects, read_body, read_checked, read_rest,
}
use hotwired.Transaction.Encoding.{add_all, body_size}
use hotwired.Transaction.RoundTrip.{message, IsRead, IsNew, task_of, read-write}
use hotwired.Transaction.Objects.{sent}
use hotwired.Transaction.PathName.{path, object_path, rounds, check_names, copy_names, has_slash}
use hotwired.Transaction.PathName.Safety.{join, IsName, object_path_safe}
use hotwired.Transaction.PathName.Accepts.{
  path_object, entries, object_path-path_object, parent, object_path-parent,
}
use hotwired.Prelude.Texts.{text_at, contains}

program : Unit {0}
unfolding read_all add_object write read parse_objects read_body read_checked read_rest flatten
    reply_create create add_all body_size object_path check_names copy_names has_slash join entries
    text_at ◌+ℤ◌ ◌-ℤ◌
program = tt

abbrev request : TransactionIn
request = record { t_class = 0; t_id = 107; t_taskno = 9; t_error = 0; object = [] }

abbrev reply : TransactionOut
reply = record {
  t_class = 1;
  t_id = 0;
  t_taskno = 9;
  t_error = 0;
  length = 2;
  obj_count = 0;
  max_objects = 3;
  iov = [];
}

reply_of_request : reply_create request 0 3 ≡ reply
unfolding program
reply_of_request = refl

abbrev version : List TransactionObject
version = sent 160 (be32 185) ∷ sent 162 (b'h' ∷ b'i' ∷ []) ∷ []

abbrev wire : List ℕ
wire =
    0 ∷ 1 ∷ 0 ∷ 0 ∷ 0 ∷ 0 ∷ 0 ∷ 9 ∷ 0 ∷ 0 ∷ 0 ∷ 0 ∷ 0 ∷ 0 ∷ 0 ∷ 16 ∷ 0 ∷ 0 ∷ 0 ∷ 16 ∷ 0 ∷ 2 ∷ 0
    ∷ 160 ∷ 0 ∷ 4 ∷ 0 ∷ 0 ∷ 0 ∷ 185 ∷ 0 ∷ 162 ∷ 0 ∷ 2 ∷ b'h' ∷ b'i' ∷ []

written : write 0 (add_all reply version) ≡ wire
unfolding program
written = refl

reply-IsNew : IsNew reply
reply-IsNew = record {
  size = refl;
  count = refl;
  buffers = refl;
  class_fits = omega arith;
  id_fits = omega arith;
  task_fits = omega arith;
  error_fits = omega arith;
}

-- The message comes in two pieces, and a byte of the next message with the second.
read-write_example :
    IsRead
      (message 1 0 (task_of 0 reply) 0 version)
      (7 ∷ [])
      (read (take 30 wire ∷ (drop 30 wire ++ 7 ∷ []) ∷ []))
unfolding program
read-write_example =
    read-write reply version 0 reply-IsNew (omega arith) (omega arith) (omega arith) (omega arith)
      (take 30 wire ∷ (drop 30 wire ++ 7 ∷ []) ∷ []) (7 ∷ []) (omega arith) (omega arith) refl

abbrev pub_dir : List ℕ
pub_dir = b'p' ∷ b'u' ∷ b'b' ∷ []

object_path-path_object_example :
    object_path (path_object 202 (pub_dir ∷ pub_dir ∷ []))
    ≡ path (text_at (join (pub_dir ∷ pub_dir ∷ [])))
unfolding has_slash
object_path-path_object_example =
    object_path-path_object 202 pub_dir (pub_dir ∷ [])
      ((omega arith, (refl, λ e. cc)), ((omega arith, (refl, λ e. cc)), tt)) (omega arith)

object_path_safe_example :
    (ns : List (List ℕ)) × (length ns ≡ rounds 1)
    × (b'p' ∷ b'u' ∷ b'b' ∷ b'/' ∷ [] ≡ text_at (join ns))
    × All IsName ns
object_path_safe_example =
    object_path_safe (path_object 202 (pub_dir ∷ [])) (b'p' ∷ b'u' ∷ b'b' ∷ b'/' ∷ [])
      (unfold program in refl)

object_path-parent_example :
    object_path (path_object 202 (pub_dir ∷ parent ∷ []))
    ≡ path (join (pub_dir ∷ []) ++ b'.' ∷ b'.' ∷ [])
unfolding has_slash contains join
object_path-parent_example = object_path-parent 202 pub_dir (omega arith, (refl, λ e. cc)) refl
