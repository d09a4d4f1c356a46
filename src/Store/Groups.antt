-- ===== src/Store/Groups.antt =====
-- src/store.rs: the groups, wa_persistence and wa_msgids tables. A group's JID and channel are unique.
use sms_irc.Base.{
  ℕ, suc, String, Bool, false, not, ◌||◌, List, [], ◌∷◌, ◌++◌, map, Option, none, some, ok, err, M,
  ◌>>=◌, ◌>>◌, fail, gets, modify, keep, any, find?, contains, if◌then◌else◌, ◌==◌, String_Eq, ℕ_Eq,
  is_some,
}
use sms_irc.Extern.{PduAddress, Jid, Libs}
use sms_irc.Models.{Recipient, Message, Group, NewGroup}
use sms_irc.Store.Tables.{Store, connect}
use sms_irc.Store.Recipients.{get_recipient_by_addr_opt}

abbrev pub group_row : ℕ → NewGroup → Group
group_row id new = record {
  id = id;
  jid = new.jid;
  channel = new.channel;
  participants = new.participants;
  admins = new.admins;
  topic = new.topic;
}

abbrev pub add_group : Group → Store → Store
add_group row st = record st { groups = st.groups ++ row ∷ []; next_group = suc st.next_group }

abbrev pub skip_group : Store → Store
skip_group st = record st { next_group = suc st.next_group }

unfoldable pub insert_group : NewGroup → M Store Group
insert_group new st =
    let row = group_row st.next_group new in
    if any (λ (g : Group). g.jid == new.jid) st.groups
      || any (λ (g : Group). g.channel == new.channel) st.groups
    then (err "duplicate key value", skip_group st)
    else (ok row, add_group row st)

abbrev pub set_group : String → List ℕ → List ℕ → String → Group → Group
set_group jid parts adms tpc g =
    if g.jid == jid then record g { participants = parts; admins = adms; topic = tpc } else g

abbrev pub update_groups : String → List ℕ → List ℕ → String → Store → Store
update_groups jid parts adms tpc st = record st {
  groups = map (set_group jid parts adms tpc) st.groups;
}

-- `get_result` of an UPDATE: the row as written, or NotFound.
abbrev pub written : Option Group → M Store Group
written none st = (err "NotFound", st)
written (some g) st = (ok g, st)

module _ (l : Libs) where
  unfoldable pub store_group : Jid → String → List ℕ → List ℕ → String → M Store Group
  store_group jid channel participants admins topic = do
    connect
    insert_group (record {
      jid = l.show_jid jid;
      channel = channel;
      participants = participants;
      admins = admins;
      topic = topic;
    })

  unfoldable pub update_group : Jid → List ℕ → List ℕ → String → M Store Group
  update_group j parts adms tpc = do
    connect
    modify (update_groups (l.show_jid j) parts adms tpc)
    found ← gets λ st. find? (λ (g : Group). g.jid == l.show_jid j) st.groups
    written found

  unfoldable pub get_group_by_jid_opt : Jid → M Store (Option Group)
  get_group_by_jid_opt j = do connect; gets λ st. find? (λ g. g.jid == l.show_jid j) st.groups

unfoldable pub get_group_by_id : ℕ → M Store Group
get_group_by_id gid = do
  connect
  found ← gets λ st. find? (λ (g : Group). g.id == gid) st.groups
  written found

unfoldable pub get_all_groups : M Store (List Group)
get_all_groups = do connect; gets λ st. st.groups

unfoldable pub get_group_by_chan_opt : String → M Store (Option Group)
get_group_by_chan_opt c = do connect; gets λ st. find? (λ g. g.channel == c) st.groups

abbrev pub with_participant : Recipient → M Store (List Group)
with_participant r = do connect; gets λ st. keep (λ g. contains g.participants r.id) st.groups

abbrev pub groups_of : Option Recipient → M Store (List Group)
groups_of none = fail "get_groups_for_recipient couldn't find recipient"
groups_of (some r) = with_participant r

unfoldable pub get_groups_for_recipient : Libs → PduAddress → M Store (List Group)
get_groups_for_recipient l addr = do r ← get_recipient_by_addr_opt l addr; groups_of r

abbrev pub targets : ℕ → Option ℕ → Bool
targets i none = false
targets i (some g) = g == i

-- ON DELETE CASCADE takes the messages for the group with it.
unfoldable pub delete_groups : ℕ → M Store (Unit {0})
delete_groups i st =
    if any (λ (g : Group). g.id == i) st.groups
    then (
      ok tt,
      record st {
        groups = keep (λ (g : Group). not (g.id == i)) st.groups;
        messages = keep (λ (m : Message). not (targets i m.group_target)) st.messages;
      },
    )
    else (err "no rows affected deleting gid", st)

unfoldable pub delete_group_with_id : ℕ → M Store (Unit {0})
delete_group_with_id i = do connect; delete_groups i

-- A PersistentSession is opaque: a number stands for it. The table holds revision 0 alone.
unfoldable pub store_wa_persistence : ℕ → M Store (Unit {0})
store_wa_persistence p = do connect; modify λ st. record st { wa_persistence = some p }

unfoldable pub get_wa_persistence_opt : M Store (Option ℕ)
get_wa_persistence_opt = do connect; gets λ st. st.wa_persistence

unfoldable pub is_wa_msgid_stored : String → M Store Bool
is_wa_msgid_stored id = do connect; gets λ st. is_some (find? (λ m. m == id) st.wa_msgids)

-- ON CONFLICT (mid) DO NOTHING
abbrev pub add_msgid : String → Store → Store
add_msgid id st = record st {
  wa_msgids = if contains st.wa_msgids id then st.wa_msgids else st.wa_msgids ++ id ∷ [];
}

unfoldable pub store_wa_msgid : String → M Store (Unit {0})
store_wa_msgid id = do connect; modify (add_msgid id)
