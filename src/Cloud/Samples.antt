-- ===== src/Cloud/Samples.antt =====
-- Values for tests: an organization of an owner and an admin, an invite, a codec of cached entries.
use vaultkey.Prelude.{
  ℕ, zero, suc, ◌≡◌, refl, ap, Bool, true, false, Option, none, some, [], ◌∷◌, ◌++◌, Bytes, codes,
  length,
}
use vaultkey.Prelude.Int.{ℤ, pos, negsuc}
use vaultkey.Stablecoin.Cache.{Keys}
use vaultkey.Stablecoin.Samples.{split_at, split_at-append}
use vaultkey.Cloud.Members.{MemberRow}
use vaultkey.Cloud.Orgs.{Organization, OrgProject}
use vaultkey.Cloud.Invites.{Invite}
use vaultkey.Cloud.Handlers.{World, Now}
use vaultkey.Cloud.Requests.{idle}
use vaultkey.Cloud.Sessions.{System}
use vaultkey.Cloud.Keys.{KeyRow, KeyEntry, KeyCall, KeyCodec}

abbrev pub ann : Bytes
ann = codes "user_a"

abbrev pub bob : Bytes
bob = codes "user_b"

abbrev pub eve : Bytes
eve = codes "user_e"

abbrev member : ℕ → Bytes → Bytes → MemberRow
member id user role = record {
  id = id;
  org = 1;
  user = user;
  role = role;
  joined_at = 0;
  deleted_at = none;
}

abbrev pub acme : Organization
acme = record {
  id = 1;
  name = codes "Acme";
  slug = codes "acme-1";
  created_by = ann;
  billing_email = [];
  created_at = 0;
  updated_at = 0;
  deleted_at = none;
}

abbrev pub invitation : Invite
invitation = record {
  id = 1;
  org = 1;
  email = codes "e@x";
  token = codes "t1";
  role = codes "viewer";
  created_by = bob;
  expires_at = 100;
  accepted_at = none;
  accepted_by = none;
  deleted_at = none;
}

abbrev pub acme_world : World
acme_world = record {
  orgs = acme ∷ [];
  members = member 2 bob (codes "admin") ∷ member 1 ann (codes "owner") ∷ [];
  invites = invitation ∷ [];
  projects = [];
}

abbrev pub acme_system : System
acme_system = record { world = acme_world; at = λ i. idle }

abbrev pub fine : ℕ → Now
fine id = record { fails = false; id = id; time = 50 }

-- The parts of an entry's text, and how each is read in front of a rest.
put_bool : Bool → Bytes → Bytes
put_bool true s = 1 ∷ s
put_bool false s = 0 ∷ s

get_bool : Bytes → Bool × Bytes
get_bool [] = (false, [])
get_bool (c ∷ s) = elim c [ zero ↦ (false, s) | suc n ↦ (true, s) ]

get-put_bool : (b : Bool) (s : Bytes) → get_bool (put_bool b s) ≡ (b, s)
unfolding get_bool put_bool
get-put_bool true s = refl
get-put_bool false s = refl

get_num : Bytes → ℕ × Bytes
get_num [] = (0, [])
get_num (c ∷ s) = (c, s)

get-put_num : (n : ℕ) (s : Bytes) → get_num (n ∷ s) ≡ (n, s)
unfolding get_num
get-put_num n s = refl

put_int : ℤ → Bytes → Bytes
put_int (pos n) s = 0 ∷ n ∷ s
put_int (negsuc n) s = 1 ∷ n ∷ s

get_int : Bytes → ℤ × Bytes
get_int (sign ∷ n ∷ s) = elim sign [ zero ↦ (pos n, s) | suc k ↦ (negsuc n, s) ]
get_int s = (pos 0, s)

get-put_int : (z : ℤ) (s : Bytes) → get_int (put_int z s) ≡ (z, s)
unfolding get_int put_int
get-put_int (pos n) s = refl
get-put_int (negsuc n) s = refl

put_text : Bytes → Bytes → Bytes
put_text t s = length t ∷ (t ++ s)

get_text : Bytes → Bytes × Bytes
get_text [] = ([], [])
get_text (n ∷ s) = split_at n s

get-put_text : (t s : Bytes) → get_text (put_text t s) ≡ (t, s)
unfolding get_text put_text
get-put_text t s = split_at-append t s

put_option : Option ℕ → Bytes → Bytes
put_option none s = 0 ∷ s
put_option (some n) s = 1 ∷ n ∷ s

get_option : Bytes → Option ℕ × Bytes
get_option [] = (none, [])
get_option (c ∷ s) = elim c [ zero ↦ (none, s) | suc k ↦ (some (get_num s).0, (get_num s).1) ]

get-put_option : (o : Option ℕ) (s : Bytes) → get_option (put_option o s) ≡ (o, s)
unfolding get_option put_option get_num
get-put_option none s = refl
get-put_option (some n) s = refl

put_text_option : Option Bytes → Bytes → Bytes
put_text_option none s = 0 ∷ s
put_text_option (some t) s = 1 ∷ put_text t s

get_text_option : Bytes → Option Bytes × Bytes
get_text_option [] = (none, [])
get_text_option (c ∷ s) = elim c [
  | zero ↦ (none, s)
  | suc k ↦ (some (get_text s).0, (get_text s).1)
]

get-put_text_option :
    (o : Option Bytes) (s : Bytes) → get_text_option (put_text_option o s) ≡ (o, s)
unfolding get_text_option put_text_option
get-put_text_option none s = refl
get-put_text_option (some t) s = ap (λ p. (some p.0, p.1)) (get-put_text t s)

ruleset parts =
    (get-put_bool, get-put_num, get-put_int, get-put_text, get-put_option, get-put_text_option)

print_key : KeyRow → Bytes → Bytes
print_key k s =
    k.id
    ∷ k.project
    ∷ put_text k.name (
        put_text k.key (
          put_text k.secret_hash (
            put_text_option k.created_by
              (put_bool k.active (k.created_at ∷ put_option k.deleted_at s)))))

read_key : Bytes → KeyRow × Bytes
read_key s0 =
    let (id, s1) = get_num s0 in
    let (project, s2) = get_num s1 in
    let (name, s3) = get_text s2 in
    let (key, s4) = get_text s3 in
    let (hash, s5) = get_text s4 in
    let (by, s6) = get_text_option s5 in
    let (active, s7) = get_bool s6 in
    let (created, s8) = get_num s7 in
    let (deleted, s9) = get_option s8 in
    (
      record {
        id = id;
        project = project;
        name = name;
        key = key;
        secret_hash = hash;
        created_by = by;
        active = active;
        created_at = created;
        deleted_at = deleted;
      },
      s9,
    )

read-print_key : (k : KeyRow) (s : Bytes) → read_key (print_key k s) ≡ (k, s)
unfolding read_key print_key
read-print_key k s = simp parts

print_project : OrgProject → Bytes → Bytes
print_project p s =
    p.id
    ∷ put_text p.name (
        put_int p.rate_limit_rps (
          put_int p.max_retries
            (put_bool p.cloud_managed (put_option p.org (put_option p.deleted_at s)))))

read_project : Bytes → OrgProject × Bytes
read_project s0 =
    let (id, s1) = get_num s0 in
    let (name, s2) = get_text s1 in
    let (rps, s3) = get_int s2 in
    let (retries, s4) = get_int s3 in
    let (managed, s5) = get_bool s4 in
    let (org, s6) = get_option s5 in
    let (deleted, s7) = get_option s6 in
    (
      record {
        id = id;
        name = name;
        rate_limit_rps = rps;
        max_retries = retries;
        cloud_managed = managed;
        org = org;
        deleted_at = deleted;
      },
      s7,
    )

read-print_project : (p : OrgProject) (s : Bytes) → read_project (print_project p s) ≡ (p, s)
unfolding read_project print_project
read-print_project p s = simp parts

pub print_entry : KeyEntry → Bytes
print_entry e = print_key e.api_key (print_project e.project [])

pub read_entry : Bytes → Option KeyEntry
read_entry s =
    let (k, rest) = read_key s in some (record { api_key = k; project = (read_project rest).0 })

pub read-print_entry : (e : KeyEntry) → read_entry (print_entry e) ≡ some e
unfolding read_entry print_entry
read-print_entry e = simp (read-print_key, read-print_project)

abbrev pub codec : KeyCodec
codec = record { encode = print_entry; decode = read_entry; decode-encode = read-print_entry }

abbrev pub live_key : KeyRow
live_key = record {
  id = 4;
  project = 9;
  name = codes "ci";
  key = codes "vk_live_k";
  secret_hash = codes "s";
  created_by = some ann;
  active = true;
  created_at = 0;
  deleted_at = none;
}

abbrev pub acme_project : OrgProject
acme_project = record {
  id = 9;
  name = codes "Acme Project";
  rate_limit_rps = pos 10;
  max_retries = pos 3;
  cloud_managed = true;
  org = some 1;
  deleted_at = none;
}

abbrev pub no_entries : Keys
no_entries key = none

abbrev pub all_up : KeyCall
all_up = record { get_up = true; set_up = true; del_up = true; db_up = true }
