-- ===== src/Admin/Help.antt =====
-- src/admin.rs: the help texts, and which of them a query asks for.
use sms_irc.Base.{String, Option, none, some, ◌<>◌, to_lowercase, if◌then◌else◌, ◌==◌, String_Eq}

abbrev pub ghost_help : String
ghost_help =
    "\u{2}*** GHOST subcommand ***\u{f}\n" <> "The following commands are available:\n"
    <> "\u{2}RENAME\u{f} \u{1d}new_nick\u{f}\n"
    <> "    Change the ghost's nickname to \u{1d}new_nick\u{f}.\n"
    <> "\u{2}WHATSAPP\u{f} \u{1d}true|false\u{f}\n"
    <> "    Enable or disable WhatsApp mode for this recipient.\n"
    <> "\u{2}REMOVE\u{f} \u{3}07(aliases \u{2}KILL\u{2}, \u{2}DIE\u{2})\u{f}\n"
    <> "    Remove this recipient, causing them to disconnect.\n" <> "\u{2}PRESUB\u{f}\n"
    <> "    \u{2}Sub\u{f}scribe to updates about the user's \u{2}pre\u{f}sence, if they're using WhatsApp.\n"
    <> "    This command will usually not be required, and is mainly useful for debugging.\n"
    <> "\u{2}*** End of subcommand help ***\u{f}"

abbrev pub modem_help : String
modem_help =
    "\u{2}*** MODEM subcommand ***\u{f}\n" <> "The following commands are available:\n"
    <> "\u{2}SIGNAL\u{f} \u{3}07(alias \u{2}CSQ\u{2})\u{f}\n"
    <> "    Get the current signal strength, as reported by the modem.\n"
    <> "\u{2}REGISTRATION\u{f} \u{3}07(alias \u{2}REG\u{2})\u{f}\n"
    <> "    Get the modem's registration state.\n" <> "\u{2}RESTART\u{f}\n"
    <> "    Reinitialize the connection to the modem.\n"
    <> "\u{2}PATH\u{f} \u{1d}[temp_path]\u{f}\n"
    <> "    \u{1f}\u{2}Temporarily\u{f} sets the modem path to \u{1d}temp_path\u{f}.\n"
    <> "    Not specifying a value for \u{1d}temp_path\u{f} will disable the modem.\n"
    <> "    \u{1f}Tip: Change the \u{11}modem_path\u{11} option in the configuration to make this permanent.\u{1f}\n"
    <> "\u{2}*** End of subcommand help ***\u{f}"

abbrev pub contact_help : String
contact_help =
    "\u{2}*** CONTACT subcommand ***\u{f}\n" <> "The following commands are available:\n"
    <> "\u{2}WHATSAPP\u{f} \u{1d}number\u{f}\n"
    <> "    Contact someone new, with the phone number \u{1d}number\u{f}, via WhatsApp.\n"
    <> "\u{2}SMS\u{f} \u{1d}number\u{f}\n"
    <> "    Contact someone new, with the phone number \u{1d}number\u{f}, via SMS.\n"
    <> "\u{2}*** End of subcommand help ***\u{f}"

abbrev pub whatsapp_help : String
whatsapp_help =
    "\u{2}*** WHATSAPP subcommand ***\u{f}\n" <> "The following commands are available:\n"
    <> "\u{2}SETUP\u{f}\n"
    <> "    Begin the WhatsApp registration process. This requires you to have your phone ready, in order to scan a QR code.\n"
    <> "    \u{1f}\u{2}Warning:\u{2} This command will \u{2}erase\u{2} your existing WhatsApp credentials.\u{1f}\n"
    <> "\u{2}LOGON\u{f}\n" <> "    Log on to WhatsApp Web using stored credentials.\n"
    <> "    This command will usually not be required, but is helpful if the bridge appears stuck.\n"
    <> "\u{2}CHATS\u{f}\n" <> "    List all WhatsApp chats you're currently part of.\n"
    <> "\u{2}RECEIPTS\u{f} \u{3}07(alias \u{2}ACKS\u{2})\u{f}\n"
    <> "    Print delivery reports for recently sent messages.\n" <> "\u{2}REBUILD\u{f}\n"
    <> "    Refresh group metadata for all WhatsApp groups you're currently in.\n"
    <> "    This command will usually not be required, and is mainly useful for debugging.\n"
    <> "\u{2}*** End of subcommand help ***\u{f}"

abbrev pub group_help : String
group_help =
    "\u{2}*** GROUP subcommand ***\u{f}\n" <> "The following commands are available:\n"
    <> "\u{2}BRIDGE\u{f} \u{1d}jid\u{f} \u{1d}chan\u{f}\n"
    <> "    Bridges the WhatsApp groupchat with JID \u{1d}jid\u{f} to the IRC channel \u{1d}chan\u{f}.\n"
    <> "\u{2}UNBRIDGE\u{f} \u{1d}chan\u{f}\n" <> "    Unbridges the IRC channel \u{1d}chan\u{f}.\n"
    <> "\u{2}*** End of subcommand help ***\u{f}"

abbrev pub insp_help : String
insp_help =
    "\u{2}*** INSP subcommand ***\u{f}\n" <> "The following commands are available:\n"
    <> "\u{2}RAW\u{f} \u{1d}raw IRC line\u{f}\n"
    <> "    Sends the \u{1d}raw IRC line\u{f} to the linked IRC server.\n"
    <> "    \u{1f}\u{2}Warning:\u{2} This command is very technical, and only intended for debugging. Misuse can cause the bridge to be disconnected!\u{2}\n"
    <> "\u{2}UUQUERY\u{f} \u{1d}uuid\u{f}\n"
    <> "    Returns the nickname associated with UUID \u{1d}uuid\u{f}, if there is one.\n"
    <> "\u{2}NICKQUERY\u{f} \u{1d}nick\u{f}\n"
    <> "    Returns the UUID for the nickname \u{1d}nick\u{f}, if we know it.\n"
    <> "\u{2}*** End of subcommand help ***\u{f}"

abbrev pub admin_help : String
admin_help =
    "\u{2}*** sms-irc help ***\u{f}\n"
    <> "The following commands are available. Use \u{2}HELP\u{2} \u{1d}command\u{f} to get more information on each subcommand.\n"
    <> "\u{2}GHOST\u{2} \u{1d}nickname subcommand\u{f}\n"
    <> "    Manages ghosts (i.e. IRC users that represent a message recipient).\n"
    <> "    Here, \u{1d}nickname\u{f} represents the nickname of the ghost you're trying to manage.\n"
    <> "    \u{1d}For example, \u{11}GHOST user REMOVE\u{11} would remove the ghost named \u{11}user\u{11}.\u{1d}\n"
    <> "\u{2}CONTACT\u{f} \u{1d}subcommand\u{f}\n"
    <> "    Allows establishing contact with new people.\n"
    <> "\u{2}WHATSAPP\u{f} \u{1d}subcommand\u{f}\n"
    <> "    Manages WhatsApp registration, login and more.\n"
    <> "\u{2}MODEM\u{f} \u{1d}subcommand\u{f}\n"
    <> "    Queries the modem state and provides other management commands.\n"
    <> "\u{2}GROUP\u{f} \u{1d}subcommand\u{f}\n"
    <> "    Used to bridge and unbridge group chats to/from IRC channels.\n"
    <> "    (Currently, only WhatsApp group chats are supported.)\n"
    <> "\u{2}INSP\u{f} \u{1d}subcommand\u{f}\n"
    <> "    If sms-irc is using the InspIRCd server-to-server link, provides some debug commands.\n"
    <> "\u{2}HELP\u{f} \u{1d}[command]\u{f}\n" <> "    Shows this help.\n"
    <> "    If a \u{1d}command\u{f} is provided, shows help for that command.\n"
    <> "\u{2}*** End of help ***\u{f}"

abbrev topic_page : String → Option String
topic_page topic =
    if topic == "ghost"
    then some ghost_help
    else if topic == "modem"
    then some modem_help
    else if topic == "contact"
    then some contact_help
    else if topic == "whatsapp"
    then some whatsapp_help
    else if topic == "group"
    then some group_help
    else if topic == "insp"
    then some insp_help
    else none

unfoldable pub help_page : Option String → Option String
help_page none = some admin_help
help_page (some query) = topic_page (to_lowercase query)
