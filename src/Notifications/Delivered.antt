-- ===== src/Notifications/Delivered.antt =====
-- By which methods src/notification_service.cpp delivers.
use rclabs_api.Prelude.{
  ◌≡◌, refl, ap, str_eq, Bool, true, false, not, ◌&&◌, ◌||◌, List, [], ◌∷◌, if◌then◌else◌, arith,
}
use rclabs_api.Notifications.Messages.{
  NotificationMethod, log_only, email, webhook, slack, NotificationMessage, NotificationConfig,
  get_methods_for_priority, method_number,
}
use rclabs_api.Notifications.{
  Notifier, is_empty, is_configured, get_method, setup_delivery_methods, configure, deliver,
  deliver_by, deliver_by_any, deliver_notification,
}

-- Whether a message comes through by a method under a configuration, without the list of
-- deliveries.
abbrev pub reaches :
    (NotificationMessage → Bool)
    → NotificationConfig
    → NotificationMethod
    → NotificationMessage
    → Bool
reaches accepts c log_only m = true
reaches accepts c email m =
    not (str_eq c.email_smtp_server "")
    && not (str_eq c.email_username "")
    && not (str_eq c.email_password "")
    && not (is_empty c.email_recipients)
reaches accepts c webhook m = not (str_eq c.webhook_url "") && accepts m
reaches accepts c slack m = false

abbrev pub any : {A : Type 0} → (A → Bool) → List A → Bool
any p [] = false
any p (x ∷ xs) = p x || any p xs

module _ (accepts : NotificationMessage → Bool) (blank : NotificationMessage) where
  deliver_by-setup :
      (c : NotificationConfig) (method : NotificationMethod) (m : NotificationMessage)
      → deliver_by accepts blank (setup_delivery_methods c) method m ≡ reaches accepts c method m
  unfolding deliver_by setup_delivery_methods method_number get_method is_configured deliver
  deliver_by-setup c log_only m = ground arith
  deliver_by-setup c email m = ground arith
  deliver_by-setup c webhook m = ground arith
  deliver_by-setup c slack m = ground arith

  deliver_by_any-setup :
      (c : NotificationConfig) (methods : List NotificationMethod) (m : NotificationMessage)
      → deliver_by_any accepts blank (setup_delivery_methods c) methods m
        ≡ any (λ method. reaches accepts c method m) methods
  unfolding deliver_by_any
  deliver_by_any-setup c [] m = refl
  deliver_by_any-setup c (method ∷ methods) m =
      rw (deliver_by-setup c method m, deliver_by_any-setup c methods m) refl

  -- After a configuration, a message is delivered exactly in test mode, or if one of the methods for
  -- its priority comes through: the log always, an e-mail if there are a server, a user, a password
  -- and recipients, a webhook if there is an address and its receiver accepts the message, and
  -- Slack never.
  pub configure-delivers :
      (s : Notifier) (c : NotificationConfig) (m : NotificationMessage)
      → deliver_notification accepts blank (configure s c) m ≡ (
          if s.test_mode
          then true
          else any (λ method. reaches accepts c method m) (get_methods_for_priority c m.priority))
  unfolding deliver_notification configure
  configure-delivers s c m =
      ap (λ b. if s.test_mode then true else b)
        (deliver_by_any-setup c (get_methods_for_priority c m.priority) m)
