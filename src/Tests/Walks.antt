-- ===== src/Tests/Walks.antt =====
-- The broadcast of ConnectionManager.c.
use hotwired.Collection.Bucket.{find}
use hotwired.Collection.Keys.{collection_key}
use hotwired.Collection.Load.{to_float, above_three, above_one}
use hotwired.Collection.{slot, create, grow, insert_at, insert}
use hotwired.ConnectionManager.Broadcast.{first, walk_bucket}
use hotwired.ConnectionManager.Broadcast.Endless.{TwoReceivers, walk_bucket_endless}
use hotwired.ConnectionManager.{Connection, Connections, cstate_li, fresh}
use hotwired.Prelude.{◌≡◌, refl, none, [], get_or, arith}

program : Unit {0}
unfolding find to_float above_three above_one slot create grow insert_at insert fresh
program = tt

abbrev user : Connection
user = record (fresh 0 2130706433) { cstate = cstate_li }

abbrev nobody : Connections
nobody = create

-- 5 and 24 share a bucket.
abbrev two_users : Connections
two_users = (insert (insert nobody 5 user).0 24 user).0

two_users-TwoReceivers : TwoReceivers 7 two_users 5 24 5
unfolding program
two_users-TwoReceivers = record {
  cx = user;
  cy = user;
  rest = [];
  inside = omega arith;
  home_x = refl;
  home_y = refl;
  bucket = refl;
  apart = refl;
  takes_x = refl;
  takes_y = refl;
}

walk_bucket_endless_example :
    walk_bucket 1000 7 two_users 5 (first (get_or two_users.buckets 5 [])) [] ≡ none
walk_bucket_endless_example = walk_bucket_endless 1000 7 two_users 5 24 5 [] two_users-TwoReceivers
