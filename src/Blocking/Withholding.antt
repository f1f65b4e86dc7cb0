-- ===== src/Blocking/Withholding.antt =====
-- Nothing of a session reaches the client while the session is not configured.
use stolosio.Prelude.{
  either, String, str_eq_iff, Option, none, some, List, [], ◌∷◌, true, false, ◌≡◌, inl, inr, refl,
  any, delete_where, Bool-cases, arith,
}
use stolosio.Prelude.Dicts.{contains, contains-discard}
use stolosio.Blocking.Json.{Json, is_object}
use stolosio.Blocking.Messages.{
  CommandKey, same_key, value_command_key, Attached, attaches, no_page, raises,
  attached_page_session, message_target_session,
}
use stolosio.Blocking.Session.{
  message, error, Pump, routing, leaving, Task, DomainBlocking, for_key, has_task,
}
use stolosio.Blocking.Routing.{begin_target_configuration, route_attached, route_keyed, route}
use stolosio.Blocking.Configuration.{set_phase}
use stolosio.Blocking.Gating.{
  texts_of, Begins-refl, is_awaiting, Withholds, same-Withholds, end_pump-Withholds, open-IsQuiet,
  put_nowait-Withholds, gate-Withholds,
}

begin-Withholds :
    (s r : String) (value : Json) (pump : Pump) (d : DomainBlocking)
    → contains s d.unconfigured_targets ≡ true
    → d.closed ≡ false
    → Withholds s d (record (begin_target_configuration r value d) { pump = pump })
unfolding begin_target_configuration
begin-Withholds s r value pump d h o = elim (Bool-cases (has_task r d)) [
  | inl t ↦ rw t (same-Withholds s d _ (inl h) refl refl refl (open-IsQuiet _ o))
  | inr t ↦ rw t (record {
    held = inl (ground (arith, contains-discard s r d.unconfigured_targets, str_eq_iff r s));
    shows = Begins-refl (texts_of s d.messages);
    quiet = open-IsQuiet _ o;
  })
]

route_attached-Withholds :
    (s text : String) (value : Json) (a : Attached) (d : DomainBlocking)
    → contains s d.unconfigured_targets ≡ true
    → d.closed ≡ false
    → Withholds s d (route_attached text value a d)
unfolding route_attached
route_attached-Withholds s text value raises d h o =
    end_pump-Withholds s error d h (open-IsQuiet d o)
route_attached-Withholds s text value no_page d h o =
    gate-Withholds s text (message_target_session d.target_sessions value) d h o
route_attached-Withholds s text value (attaches r) d h o =
    begin-Withholds s r value (routing text value r) d h o

route_keyed-Withholds :
    (s text : String) (value : Json) (k : Option CommandKey) (d : DomainBlocking)
    → contains s d.unconfigured_targets ≡ true
    → d.closed ≡ false
    → Withholds s d (route_keyed text value k d)
unfolding route_keyed
route_keyed-Withholds s text value none d h o =
    route_attached-Withholds s text value (attached_page_session value) d h o
route_keyed-Withholds s text value (some key) d h o =
    either (Withholds s d) (any (for_key key) d.internal_responses)
      (same-Withholds s d _ (inl h) refl refl refl (open-IsQuiet _ o))
      (let w =
          route_attached-Withholds s text value (attached_page_session value)
            (record d {
              downstream_command_ids = delete_where (same_key key) d.downstream_command_ids;
            })
            h o in
        record { held = w.held; shows = w.shows; quiet = w.quiet })

pub route-Withholds :
    (s text : String) (value : Option Json) (d : DomainBlocking)
    → contains s d.unconfigured_targets ≡ true
    → d.closed ≡ false
    → Withholds s d (route text value d)
unfolding route
route-Withholds s text none d h o =
    put_nowait-Withholds s (message none text) d _ h refl refl refl (open-IsQuiet _ o)
route-Withholds s text (some value) d h o =
    either (Withholds s d) (is_object value)
      (route_keyed-Withholds s text value (value_command_key value) d h o)
      (end_pump-Withholds s error d h (open-IsQuiet d o))

pub any-set_phase :
    (s : String) (key : CommandKey) (ts : List Task)
    → any is_awaiting ts ≡ false
    → any is_awaiting (set_phase s (leaving key) ts) ≡ false
any-set_phase s key [] e = refl
any-set_phase s key (t ∷ ts) e = let ih = any-set_phase s key ts in ground arith
