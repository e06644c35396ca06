-- ===== src/Identity/Tests.antt =====
-- Runs of the users and of their handlers (src/modules/identity) on small inputs.
use nest_kit.Events.{active, pending}
use nest_kit.Base.{refl, some, List, [], ◌∷◌, ne_of_test}
use nest_kit.Effects.{ok}
use nest_kit.Database.{Store}
use nest_kit.Identity.Handlers.Sound.{IsSound}
use nest_kit.Identity.Handlers.Unique.{
  Command, registers, updates, deletes, execute_all, execute_all-IsSound,
}
use nest_kit.Identity.User.{User, register}
use nest_kit.Identity.User.History.{Call, changes_email, changes_status, deletes}

abbrev user : User
user = register "u1" "ada@example.com" "hash" 5

abbrev history : List Call
history = changes_email "ada@example.org" 6 ∷ changes_status pending 7 ∷ deletes 8 ∷ []

abbrev world : Store
world = record {
  db = record {
    users = user ∷ register "u2" "bob@example.com" "hash" 5 ∷ [];
    owners = [];
    cars = [];
    sessions = [];
  };
  outbox = [];
  dispatched = [];
}

-- A duplicate, a change to a free address, and the reuse of the address of a deleted user.
abbrev commands : List Command
commands =
    registers "u3" "bob@example.com" "hash" 6
    ∷ updates "u2" (some (ok "bob@example.org")) (some active) 7
    ∷ deletes "u1" 8
    ∷ registers "u4" "ada@example.com" "hash" 9
    ∷ []

execute_all-IsSound_example : IsSound (execute_all world commands).db
unfolding register
execute_all-IsSound_example = execute_all-IsSound world commands (record {
  keyed = ((ne_of_test "u2" "u1" refl, tt), (tt, tt));
  unique = ((refl, tt), (tt, tt));
})
