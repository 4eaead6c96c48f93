-- ===== src/Sftp/Sessions.antt =====
-- What the sessions of an SFTP connection can change.
use pufferd.Common.{
  String, List, [], ◌∷◌, ◌++◌, false, Option, none, is_some, not, ◌==◌, ◌≡◌, ◌⊎◌, inl, inr, refl,
  ap, sym, subst, ◌∙◌, All, All-append, append_assoc, Bool-cases,
}
use pufferd.Types.{Err}
use pufferd.FilePath.{dir}
use pufferd.World.{Call, World, Outside, record_call, pure, ask, ask_info, ask_entries, ask_reply}
use pufferd.World.Runs.{bind-ret}
use pufferd.World.Keeps.{
  Follows, Follows-trans, Keeps-ask, Keeps, Keeps-pure, Keeps-bind, Keeps-then, Keeps-if,
  Keeps-option, Keeps-result, Keeps-allowed, Keeps-ask_entries, Keeps-ask_info, Keeps-ask_reply,
  Keeps-read,
}
use pufferd.Sftp.{
  Request, new_path, validate, file_read, file_write, file_cmd, file_list, get_file, list_folder,
  describe_file, read_link,
}
use pufferd.Sftp.Confined.{
  Confined, changed_paths, Approved, MayTouch, act, nothing_added, validate-ok, validate-err,
  file_cmd-Confined, file_write-Confined,
}
use pufferd.Sftp.Server.{Asked, read, write, command, list, Channel, handle, serve, handle_channels}

-- Between two histories, a path that the access check admitted below a folder, the empty name, or the folder
-- that such a path lies in.
abbrev pub Within : Outside → String → List Call → List Call → String → Type 0
Within o prefix start end path =
    ((t : List Call) × Follows t start × Follows end t × MayTouch o t prefix path)
    ⊎ ((t : List Call) × (q : String) × Follows t start
        × Follows end t
        × Approved o t prefix q
        × (path ≡ dir q))

Within-later :
    (o : Outside) (prefix : String) {start middle end : List Call}
    → Follows end middle
    → (path : String) → Within o prefix start middle path
    → Within o prefix start end path
Within-later o prefix later path (inl (t, begun, past, k)) =
    inl (t, begun, Follows-trans later past, k)
Within-later o prefix later path (inr (t, q, begun, past, k, above)) =
    inr (t, q, begun, Follows-trans later past, k, above)

pub All-weaken :
    {A : Type 0} {P Q : A → Type 0} (xs : List A) → ((a : A) → P a → Q a) → All P xs → All Q xs
All-weaken [] f h = tt
All-weaken (x ∷ xs) f (h, more) = (f x h, All-weaken xs f more)

Confined-trans :
    {P Q : String → Type 0} {a b c : List Call}
    → ((path : String) → P path → Q path)
    → Confined Q a b
    → Confined P b c
    → Confined Q a c
Confined-trans {P} {Q} {a} weaken h k = record {
  added = k.added ++ h.added;
  grows = k.grows ∙ ap (λ t. k.added ++ t) h.grows ∙ sym (append_assoc k.added h.added a);
  within =
      All-append _ k.added h.added
        (All-weaken k.added (λ call. All-weaken (changed_paths call) weaken) k.within) h.within;
}

Confined-map :
    {P Q : String → Type 0} {a b : List Call}
    → ((path : String) → P path → Q path)
    → Confined P a b
    → Confined Q a b
Confined-map weaken h = record {
  added = h.added;
  grows = h.grows;
  within = All-weaken h.added (λ call. All-weaken (changed_paths call) weaken) h.within;
}

module _ (o : Outside) (prefix : String) (before : List Call) where
  abbrev Inside : World → Type 0
  Inside w = Confined (Within o prefix before w.trace) before w.trace

  -- A run whose changes are admitted as it begins.
  go_on :
      {P : String → Type 0} (w : World) (end : List Call)
      → Inside w
      → Confined P w.trace end
      → ((path : String)
          → Follows w.trace before
          → Follows end w.trace
          → P path
          → Within o prefix before end path)
      → Confined (Within o prefix before end) before end
  go_on w end h k admitted =
      Confined-trans (λ path. admitted path (h.added, h.grows) (k.added, k.grows))
        (Confined-map (Within-later o prefix (k.added, k.grows)) h) k

  file_cmd-Keeps : (r : Request) → Keeps Inside (file_cmd o prefix r)
  file_cmd-Keeps r = record {
    at = λ w h.
        go_on w _ h (file_cmd-Confined o prefix r w)
          (λ path begun later k. inl (w.trace, begun, later, k));
  }

  file_write-Keeps : (r : Request) → Keeps Inside (file_write o prefix r)
  file_write-Keeps r = record {
    at = λ w h. go_on w _ h (file_write-Confined o prefix r w) (λ path begun later k. elim k.0 [
      | inl same ↦
          inl (w.trace, begun, later, inr (subst (Approved o w.trace prefix) (sym same) k.1))
      | inr above ↦ inr (w.trace, _, begun, later, k.1, above)
    ]);
  }

  -- A call that changes no path.
  look : (c : Call) (w : World) → changed_paths c ≡ [] → Inside w → Inside (record_call c w)
  look c w none_changed h = record {
    added = c ∷ h.added;
    grows = ap (λ t. c ∷ t) h.grows;
    within = (
      subst (All (Within o prefix before (c ∷ w.trace))) (sym none_changed) tt,
      All-weaken h.added
          (λ call. All-weaken (changed_paths call) (Within-later o prefix (c ∷ [], refl))) h.within,
    );
  }

  act_in : (c : Call) → changed_paths c ≡ [] → Keeps Inside (ask o c)
  act_in = Keeps-ask _ o (λ c. changed_paths c ≡ []) look

  validate-Keeps : (path : String) → Keeps Inside (validate o prefix path)
  unfolding validate
  validate-Keeps path =
      Keeps-bind (Keeps-allowed o _ _) (λ access. Keeps-if access (Keeps-pure _) (Keeps-pure _))

  file_read-Keeps : (r : Request) → Keeps Inside (file_read o prefix r)
  unfolding file_read get_file pure
  file_read-Keeps r = record {
    at = λ w h. elim (Bool-cases (o.ensure_access w.trace (new_path prefix r.file_path) prefix)) [
      | inl admitted ↦ rw (bind-ret _ _ w (validate-ok o prefix r.file_path w admitted)) (
          go_on w _ h
            ((Keeps-bind
                (act o (λ path. path ≡ new_path prefix r.file_path) w.trace
                  (Call.open_flags (new_path prefix r.file_path) false) (refl, tt))
                (λ failed. Keeps-pure _)).at
              w (nothing_added w.trace))
            (λ path begun later same.
              inl (
                w.trace,
                begun,
                later,
                inr (subst (Approved o w.trace prefix) (sym same) admitted),
              )))
      | inr denied ↦ rw (bind-ret _ _ w (validate-err o prefix r.file_path w denied)) h
    ];
  }

  info_in : (c : Call) → changed_paths c ≡ [] → Keeps Inside (ask_info o c)
  info_in = Keeps-ask_info _ o (λ c. changed_paths c ≡ []) look

  entries_in : (c : Call) → changed_paths c ≡ [] → Keeps Inside (ask_entries o c)
  entries_in = Keeps-ask_entries _ o (λ c. changed_paths c ≡ []) look

  reply_in : (c : Call) → changed_paths c ≡ [] → Keeps Inside (ask_reply o c)
  reply_in = Keeps-ask_reply _ o (λ c. changed_paths c ≡ []) look

  list_folder-Keeps : (path : String) → Keeps Inside (list_folder o prefix path)
  unfolding list_folder
  list_folder-Keeps path = Keeps-bind (act_in (Call.open_file path) refl) (λ unopened.
      Keeps-option unopened
        (Keeps-bind (entries_in (Call.read_dir path) refl) (λ found.
          Keeps-option found.1
            (Keeps-bind (act_in (Call.close_file path) refl)
              (λ unclosed. Keeps-option unclosed (Keeps-read _) (λ e. Keeps-pure _)))
            (λ e. Keeps-pure _)))
        (λ e. Keeps-pure _))

  describe_file-Keeps : (path : String) → Keeps Inside (describe_file o prefix path)
  unfolding describe_file
  describe_file-Keeps path = Keeps-bind (act_in (Call.open_file path) refl) (λ unopened.
      Keeps-option unopened
        (Keeps-bind (info_in (Call.stat path) refl) (λ found.
          Keeps-option found.1
            (Keeps-bind (act_in (Call.close_file path) refl)
              (λ unclosed. Keeps-option unclosed (Keeps-pure _) (λ e. Keeps-pure _)))
            (λ e. Keeps-pure _)))
        (λ e. Keeps-pure _))

  read_link-Keeps : (path : String) → Keeps Inside (read_link o prefix path)
  unfolding read_link
  read_link-Keeps path = Keeps-bind (reply_in (Call.readlink path) refl) (λ found.
      Keeps-option found.1
        (Keeps-bind (Keeps-allowed o _ _)
          (λ access. Keeps-if access (describe_file-Keeps _) (Keeps-pure _)))
        (λ e. Keeps-pure _))

  file_list-Keeps : (r : Request) → Keeps Inside (file_list o prefix r)
  unfolding file_list
  file_list-Keeps r = Keeps-bind (validate-Keeps r.file_path) (λ checked.
      Keeps-result checked (λ e. Keeps-pure _)
        (λ path. Keeps-if (r.method == "List") (list_folder-Keeps path) (
          Keeps-if (r.method == "Stat") (describe_file-Keeps path)
            (Keeps-if (r.method == "Readlink") (read_link-Keeps path) (Keeps-pure _)))))

  handle-Keeps : (a : Asked) → Keeps Inside (handle o prefix a)
  unfolding handle
  handle-Keeps (read r) = Keeps-then (file_read-Keeps r) (Keeps-pure tt)
  handle-Keeps (write r) = Keeps-then (file_write-Keeps r) (Keeps-pure tt)
  handle-Keeps (command r) = Keeps-then (file_cmd-Keeps r) (Keeps-pure tt)
  handle-Keeps (list r) = Keeps-then (file_list-Keeps r) (Keeps-pure tt)

  serve-Keeps : (as' : List Asked) (end : Option Err) → Keeps Inside (serve o prefix as' end)
  unfolding serve
  serve-Keeps [] end = Keeps-pure end
  serve-Keeps (a ∷ rest) end = Keeps-then (handle-Keeps a) (serve-Keeps rest end)

  pub handle_channels-Keeps :
      (channels : List Channel) → Keeps Inside (handle_channels o prefix channels)
  unfolding handle_channels
  handle_channels-Keeps [] = Keeps-pure none
  handle_channels-Keeps (c ∷ rest) =
      Keeps-if (not (c.channel_type == "session"))
        (Keeps-if (is_some c.reject) (Keeps-pure _) (handle_channels-Keeps rest))
        (Keeps-if (is_some c.accept) (Keeps-pure _) (
          Keeps-bind (serve-Keeps c.asked c.end)
            (λ failed. Keeps-if (is_some failed) (Keeps-pure _) (handle_channels-Keeps rest))))
