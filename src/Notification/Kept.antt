-- ===== src/Notification/Kept.antt =====
-- What the requests to services/notification-service/internal/application keep of a stored
-- notification, and what a write keeps of it.
use ops_nexus.Prelude.{
  some, true, false, ok, err, refl, arith, eq_iff, Result, Option, String, Bool, ◌≡◌, ◌∙◌,
  if◌then◌else◌, ◌==◌, ◌&&◌, inl, inr,
}
use ops_nexus.Storage.{Fault}
use ops_nexus.Notification.Items.{NotificationItem}
use ops_nexus.Notification.Ports.{Items, Put}
use ops_nexus.Notification.Repository.{mark}

-- What the requests keep of an item: its keys and its content, and that it is read.
pub record Kept (n m : NotificationItem) : Type 0 where
  pub same_tenant : m.tenant_id ≡ n.tenant_id
  pub same_id : m.id ≡ n.id
  pub same_user : m.user_id ≡ n.user_id
  pub same_type : m.notification_type ≡ n.notification_type
  pub same_title : m.title ≡ n.title
  pub same_body : m.body ≡ n.body
  pub same_channel : m.channel ≡ n.channel
  pub same_metadata : m.metadata ≡ n.metadata
  pub same_creation : m.created_at ≡ n.created_at
  pub stays_read : n.read ≡ true → m.read ≡ true

pub Kept-refl : (n : NotificationItem) → Kept n n
Kept-refl n = record {
  same_tenant = refl;
  same_id = refl;
  same_user = refl;
  same_type = refl;
  same_title = refl;
  same_body = refl;
  same_channel = refl;
  same_metadata = refl;
  same_creation = refl;
  stays_read = λ h. h;
}

pub Kept-mark : (at : String) (n : NotificationItem) → Kept n (mark at n)
Kept-mark at n = record {
  same_tenant = refl;
  same_id = refl;
  same_user = refl;
  same_type = refl;
  same_title = refl;
  same_body = refl;
  same_channel = refl;
  same_metadata = refl;
  same_creation = refl;
  stays_read = λ h. refl;
}

pub Kept-trans : {a b c : NotificationItem} → Kept a b → Kept b c → Kept a c
Kept-trans f g = record {
  same_tenant = g.same_tenant ∙ f.same_tenant;
  same_id = g.same_id ∙ f.same_id;
  same_user = g.same_user ∙ f.same_user;
  same_type = g.same_type ∙ f.same_type;
  same_title = g.same_title ∙ f.same_title;
  same_body = g.same_body ∙ f.same_body;
  same_channel = g.same_channel ∙ f.same_channel;
  same_metadata = g.same_metadata ∙ f.same_metadata;
  same_creation = g.same_creation ∙ f.same_creation;
  stays_read = λ h. g.stays_read (f.stays_read h);
}

-- The item of a key, if there was one, is still there.
abbrev pub KeptAt : Option NotificationItem → Option NotificationItem → Type 0
KeptAt before after =
    (n : NotificationItem) → before ≡ some n → (m : NotificationItem) × (after ≡ some m) × Kept n m

pub KeptAt-same : {before after : Option NotificationItem} → after ≡ before → KeptAt before after
KeptAt-same e n p = (n, e ∙ p, Kept-refl n)

pub KeptAt-trans : {a b c : Option NotificationItem} → KeptAt a b → KeptAt b c → KeptAt a c
KeptAt-trans f g n p = let (m, q, h) = f n p in let (k, r, h') = g m q in (k, r, Kept-trans h h')

pub KeptAt-if :
    (b : Bool) (o before : Option NotificationItem)
    → (b ≡ true → KeptAt before o)
    → KeptAt before (if b then o else before)
KeptAt-if true o before h = h refl
KeptAt-if false o before h = KeptAt-same refl

-- A write at a key keeps the item at another one, and that at its own where the new one does.
pub KeptAt-Put :
    {R : Type 0} (before after : Items NotificationItem) (u j t i : String)
    (o : Option NotificationItem) (r : Result Fault R)
    → Put before after u j o r
    → ((u == t && j == i) ≡ true → KeptAt (before t i) o)
    → KeptAt (before t i) (after t i)
KeptAt-Put before after u j t i o (ok x) h k =
    rw (h t i) (KeptAt-if (u == t && j == i) o (before t i) k)
KeptAt-Put before after u j t i o (err e) (inl same) k = KeptAt-same (same t i)
KeptAt-Put before after u j t i o (err e) (inr h) k =
    rw (h t i) (KeptAt-if (u == t && j == i) o (before t i) k)

pub same_keys : (u j t i : String) → (u == t && j == i) ≡ true → (u ≡ t) × (j ≡ i)
same_keys u j t i e = ground (arith, eq_iff u t, eq_iff j i)
