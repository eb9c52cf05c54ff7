-- ===== src/Tests/Base.antt =====
-- A world with one root user, one template and the calendar of one model.
use pilam.Prelude.{◌+◌, true, false, some, [], ◌∷◌, ◌==◌, ℕ_eq, List_eq, pos}
use pilam.Prelude.Text.{Text, codes, same}
use pilam.Errors.{ok}
use pilam.Schema.{root, Identity, User, Template}
use pilam.World.{Env, World}
use pilam.Accounts.{Passwords}
use pilam.Tests.Rules.{held, on}

-- A hash that is the password.
abbrev pub plain_passwords : Passwords
plain_passwords = record {
  hash = λ n plain. plain;
  verify = λ hash plain. ok (hash == plain, false);
  generate = λ n. codes "ABCDEFGHIJKLMNOP";
  dummy = [];
}

abbrev pub passwd : Text
passwd = codes "correct horse"

abbrev pub user : User
user = record {
  id = 1;
  email = codes "a@b.ru";
  first_name = codes "A";
  last_name = codes "B";
  passwd_hash = passwd;
  role = root;
  active = true;
  session_epoch = pos 3;
  passwd_expired = false;
}

abbrev pub me : Identity
me = record {
  user_id = 1;
  email = codes "a@b.ru";
  first_name = codes "A";
  last_name = codes "B";
  role = root;
  passwd_expired = false;
}

abbrev pub env : Env
env = record {
  identity = some me;
  request_id = codes "r";
  now = on 739695;
  zone = λ i. pos 0;
  fresh = λ n. n + 100;
  collation = λ a b. same;
}

abbrev pub template : Template
template = record { id = 7; name = codes "T"; description = []; default = true; active = true }

abbrev pub world : World
world = record {
  tables = record {
    users = user ∷ [];
    seasons = [];
    drops = [];
    models = [];
    photos = [];
    types = [];
    templates = template ∷ [];
    items = [];
    milestones = held;
    trail = [];
  };
  drawn = 0;
  joined = false;
  failed = [];
  entropy = 0;
}
