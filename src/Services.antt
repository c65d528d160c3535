-- ===== src/Services.antt =====
-- Service/ and include/IpcStubs.hpp: the classes with a table of their commands.
pub mod Am
pub mod Vi
pub mod Hid
pub mod Fsp
pub mod Account
pub mod Audio
pub mod Capsrv
pub mod Ncm
pub mod Nfp
pub mod Nim
pub mod Ns
pub mod Settings
pub mod Ssl
pub mod Replies
use nsemu.Common.{Option, none, some, List, [], ◌∷◌, if◌then◌else◌}
use nsemu.Kernel.{codes, name_eq}
use nsemu.Ipc.Command.{Table}
use nsemu.Services.Am.{
  application_proxy, application_proxy_service, common_state_getter, self_controller,
}
use nsemu.Services.Vi.{application_display_service, manager_root_service, system_root_service}
use nsemu.Services.Hid.{applet_resource, hid_server}
use nsemu.Services.Fsp.{file_system_proxy, file_system_proxy_for_loader}
use nsemu.Services.Account.{
  account_service_for_administrator, account_service_for_application,
  account_service_for_system_service, baas_access_token_accessor,
}
use nsemu.Services.Account.Baas.{
  administrator, floating_registration_request, guest_login_request, manager_for_application,
  manager_for_system_service,
}
use nsemu.Services.Account.Nas.{
  authorization_request, o_auth_procedure_for_external_nsa,
  o_auth_procedure_for_nintendo_account_linkage,
}
use nsemu.Services.Am.Proxies.{library_applet_proxy, overlay_applet_proxy, system_applet_proxy}
use nsemu.Services.Am.Applets.{
  all_system_applet_proxies_service, applet_accessor, library_applet_accessor,
  library_applet_creator, library_applet_self_accessor,
}
use nsemu.Services.Am.Functions.{
  application_accessor, application_creator, application_functions, audio_controller,
  debug_functions, display_controller, global_state_controller, home_menu_functions, lock_accessor,
  overlay_functions, process_winding_controller, functions_storage, storage_accessor,
  transfer_storage_accessor, window, window_controller,
}
use nsemu.Services.Audio.{
  audio_debug_manager, audio_device, audio_in, audio_in_manager, audio_in_manager_for_applet,
  audio_in_manager_for_debugger, audio_out, audio_out_manager, audio_out_manager_for_applet,
  audio_out_manager_for_debugger, audio_renderer, audio_renderer_manager,
  audio_renderer_manager_for_applet, audio_renderer_manager_for_debugger, final_output_recorder,
  final_output_recorder_manager, final_output_recorder_manager_for_applet,
  final_output_recorder_manager_for_debugger,
}
use nsemu.Services.Capsrv.{
  album_accessor_service, album_control_service, screen_shot_application_service,
  screen_shot_control_service, screen_shot_service,
}
use nsemu.Services.Fsp.Files.{
  device_operator, directory, event_notifier, file, file_system, program_registry,
  save_data_info_reader, files_storage,
}
use nsemu.Services.Hid.System.{
  active_vibration_device_list, hid_debug_server, hid_system_server, hid_temporary_server,
}
use nsemu.Services.Ncm.{content_manager, content_meta_database, content_storage}
use nsemu.Services.Nfp.{debug, debug_manager, system, system_manager, user, user_manager}
use nsemu.Services.Nim.{
  async_data, async_progress_result, nim_async_result, nim_async_value, network_install_manager,
  shop_service_manager,
}
use nsemu.Services.Ns.{
  account_proxy_interface, ns_async_result, ns_async_value, content_management_interface,
  develop_interface, document_interface, download_task_interface, factory_reset_interface,
  progress_async_result, progress_monitor_for_delete_user_save_data_all, service_getter_interface,
  system_update_control, system_update_interface, vulnerability_manager_interface,
}
use nsemu.Services.Ns.Applications.{application_manager_interface}
use nsemu.Services.Settings.{
  factory_settings_server, firmware_debug_settings_server, settings_item_key_iterator,
  settings_server, system_settings_server,
}
use nsemu.Services.Ssl.{ssl_connection, ssl_context, ssl_service}
use nsemu.Services.Vi.Display.{
  application_root_service, manager_display_service, system_display_service,
}
use Prim.Native.String.{String}

-- The classes by name.
abbrev pub tables : List (String × Table)
tables =
    ("nn::am::service::IApplicationProxy", application_proxy)
    ∷ ("nn::am::service::IApplicationProxyService", application_proxy_service)
    ∷ ("nn::am::service::ICommonStateGetter", common_state_getter)
    ∷ ("nn::am::service::ISelfController", self_controller)
    ∷ ("nn::visrv::sf::IApplicationDisplayService", application_display_service)
    ∷ ("nn::visrv::sf::IManagerRootService", manager_root_service)
    ∷ ("nn::visrv::sf::ISystemRootService", system_root_service)
    ∷ ("nn::hid::IAppletResource", applet_resource)
    ∷ ("nn::hid::IHidServer", hid_server)
    ∷ ("nn::fssrv::sf::IFileSystemProxy", file_system_proxy)
    ∷ ("nn::fssrv::sf::IFileSystemProxyForLoader", file_system_proxy_for_loader)
    ∷ ("nn::account::IAccountServiceForAdministrator", account_service_for_administrator)
    ∷ ("nn::account::IAccountServiceForApplication", account_service_for_application)
    ∷ ("nn::account::IAccountServiceForSystemService", account_service_for_system_service)
    ∷ ("nn::account::IBaasAccessTokenAccessor", baas_access_token_accessor)
    ∷ ("nn::account::baas::IAdministrator", administrator)
    ∷ ("nn::account::baas::IFloatingRegistrationRequest", floating_registration_request)
    ∷ ("nn::account::baas::IGuestLoginRequest", guest_login_request)
    ∷ ("nn::account::baas::IManagerForApplication", manager_for_application)
    ∷ ("nn::account::baas::IManagerForSystemService", manager_for_system_service)
    ∷ ("nn::account::nas::IAuthorizationRequest", authorization_request)
    ∷ ("nn::account::nas::IOAuthProcedureForExternalNsa", o_auth_procedure_for_external_nsa)
    ∷ (
      "nn::account::nas::IOAuthProcedureForNintendoAccountLinkage",
      o_auth_procedure_for_nintendo_account_linkage,
    )
    ∷ ("nn::am::service::ILibraryAppletProxy", library_applet_proxy)
    ∷ ("nn::am::service::IOverlayAppletProxy", overlay_applet_proxy)
    ∷ ("nn::am::service::ISystemAppletProxy", system_applet_proxy)
    ∷ ("nn::am::service::IAllSystemAppletProxiesService", all_system_applet_proxies_service)
    ∷ ("nn::am::service::IAppletAccessor", applet_accessor)
    ∷ ("nn::am::service::ILibraryAppletAccessor", library_applet_accessor)
    ∷ ("nn::am::service::ILibraryAppletCreator", library_applet_creator)
    ∷ ("nn::am::service::ILibraryAppletSelfAccessor", library_applet_self_accessor)
    ∷ ("nn::am::service::IApplicationAccessor", application_accessor)
    ∷ ("nn::am::service::IApplicationCreator", application_creator)
    ∷ ("nn::am::service::IApplicationFunctions", application_functions)
    ∷ ("nn::am::service::IAudioController", audio_controller)
    ∷ ("nn::am::service::IDebugFunctions", debug_functions)
    ∷ ("nn::am::service::IDisplayController", display_controller)
    ∷ ("nn::am::service::IGlobalStateController", global_state_controller)
    ∷ ("nn::am::service::IHomeMenuFunctions", home_menu_functions)
    ∷ ("nn::am::service::ILockAccessor", lock_accessor)
    ∷ ("nn::am::service::IOverlayFunctions", overlay_functions)
    ∷ ("nn::am::service::IProcessWindingController", process_winding_controller)
    ∷ ("nn::am::service::IStorage", functions_storage)
    ∷ ("nn::am::service::IStorageAccessor", storage_accessor)
    ∷ ("nn::am::service::ITransferStorageAccessor", transfer_storage_accessor)
    ∷ ("nn::am::service::IWindow", window)
    ∷ ("nn::am::service::IWindowController", window_controller)
    ∷ ("nn::audio::detail::IAudioDebugManager", audio_debug_manager)
    ∷ ("nn::audio::detail::IAudioDevice", audio_device)
    ∷ ("nn::audio::detail::IAudioIn", audio_in)
    ∷ ("nn::audio::detail::IAudioInManager", audio_in_manager)
    ∷ ("nn::audio::detail::IAudioInManagerForApplet", audio_in_manager_for_applet)
    ∷ ("nn::audio::detail::IAudioInManagerForDebugger", audio_in_manager_for_debugger)
    ∷ ("nn::audio::detail::IAudioOut", audio_out)
    ∷ ("nn::audio::detail::IAudioOutManager", audio_out_manager)
    ∷ ("nn::audio::detail::IAudioOutManagerForApplet", audio_out_manager_for_applet)
    ∷ ("nn::audio::detail::IAudioOutManagerForDebugger", audio_out_manager_for_debugger)
    ∷ ("nn::audio::detail::IAudioRenderer", audio_renderer)
    ∷ ("nn::audio::detail::IAudioRendererManager", audio_renderer_manager)
    ∷ ("nn::audio::detail::IAudioRendererManagerForApplet", audio_renderer_manager_for_applet)
    ∷ ("nn::audio::detail::IAudioRendererManagerForDebugger", audio_renderer_manager_for_debugger)
    ∷ ("nn::audio::detail::IFinalOutputRecorder", final_output_recorder)
    ∷ ("nn::audio::detail::IFinalOutputRecorderManager", final_output_recorder_manager)
    ∷ (
      "nn::audio::detail::IFinalOutputRecorderManagerForApplet",
      final_output_recorder_manager_for_applet,
    )
    ∷ (
      "nn::audio::detail::IFinalOutputRecorderManagerForDebugger",
      final_output_recorder_manager_for_debugger,
    )
    ∷ ("nn::capsrv::sf::IAlbumAccessorService", album_accessor_service)
    ∷ ("nn::capsrv::sf::IAlbumControlService", album_control_service)
    ∷ ("nn::capsrv::sf::IScreenShotApplicationService", screen_shot_application_service)
    ∷ ("nn::capsrv::sf::IScreenShotControlService", screen_shot_control_service)
    ∷ ("nn::capsrv::sf::IScreenShotService", screen_shot_service)
    ∷ ("nn::fssrv::sf::IDeviceOperator", device_operator)
    ∷ ("nn::fssrv::sf::IDirectory", directory)
    ∷ ("nn::fssrv::sf::IEventNotifier", event_notifier)
    ∷ ("nn::fssrv::sf::IFile", file)
    ∷ ("nn::fssrv::sf::IFileSystem", file_system)
    ∷ ("nn::fssrv::sf::IProgramRegistry", program_registry)
    ∷ ("nn::fssrv::sf::ISaveDataInfoReader", save_data_info_reader)
    ∷ ("nn::fssrv::sf::IStorage", files_storage)
    ∷ ("nn::hid::IActiveVibrationDeviceList", active_vibration_device_list)
    ∷ ("nn::hid::IHidDebugServer", hid_debug_server)
    ∷ ("nn::hid::IHidSystemServer", hid_system_server)
    ∷ ("nn::hid::IHidTemporaryServer", hid_temporary_server)
    ∷ ("nn::ncm::IContentManager", content_manager)
    ∷ ("nn::ncm::IContentMetaDatabase", content_meta_database)
    ∷ ("nn::ncm::IContentStorage", content_storage)
    ∷ ("nn::nfp::detail::IDebug", debug)
    ∷ ("nn::nfp::detail::IDebugManager", debug_manager)
    ∷ ("nn::nfp::detail::ISystem", system)
    ∷ ("nn::nfp::detail::ISystemManager", system_manager)
    ∷ ("nn::nfp::detail::IUser", user)
    ∷ ("nn::nfp::detail::IUserManager", user_manager)
    ∷ ("nn::nim::detail::IAsyncData", async_data)
    ∷ ("nn::nim::detail::IAsyncProgressResult", async_progress_result)
    ∷ ("nn::nim::detail::IAsyncResult", nim_async_result)
    ∷ ("nn::nim::detail::IAsyncValue", nim_async_value)
    ∷ ("nn::nim::detail::INetworkInstallManager", network_install_manager)
    ∷ ("nn::nim::detail::IShopServiceManager", shop_service_manager)
    ∷ ("nn::ns::detail::IAccountProxyInterface", account_proxy_interface)
    ∷ ("nn::ns::detail::IAsyncResult", ns_async_result)
    ∷ ("nn::ns::detail::IAsyncValue", ns_async_value)
    ∷ ("nn::ns::detail::IContentManagementInterface", content_management_interface)
    ∷ ("nn::ns::detail::IDevelopInterface", develop_interface)
    ∷ ("nn::ns::detail::IDocumentInterface", document_interface)
    ∷ ("nn::ns::detail::IDownloadTaskInterface", download_task_interface)
    ∷ ("nn::ns::detail::IFactoryResetInterface", factory_reset_interface)
    ∷ ("nn::ns::detail::IProgressAsyncResult", progress_async_result)
    ∷ (
      "nn::ns::detail::IProgressMonitorForDeleteUserSaveDataAll",
      progress_monitor_for_delete_user_save_data_all,
    )
    ∷ ("nn::ns::detail::IServiceGetterInterface", service_getter_interface)
    ∷ ("nn::ns::detail::ISystemUpdateControl", system_update_control)
    ∷ ("nn::ns::detail::ISystemUpdateInterface", system_update_interface)
    ∷ ("nn::ns::detail::IVulnerabilityManagerInterface", vulnerability_manager_interface)
    ∷ ("nn::ns::detail::IApplicationManagerInterface", application_manager_interface)
    ∷ ("nn::settings::IFactorySettingsServer", factory_settings_server)
    ∷ ("nn::settings::IFirmwareDebugSettingsServer", firmware_debug_settings_server)
    ∷ ("nn::settings::ISettingsItemKeyIterator", settings_item_key_iterator)
    ∷ ("nn::settings::ISettingsServer", settings_server)
    ∷ ("nn::settings::ISystemSettingsServer", system_settings_server)
    ∷ ("nn::ssl::sf::ISslConnection", ssl_connection)
    ∷ ("nn::ssl::sf::ISslContext", ssl_context)
    ∷ ("nn::ssl::sf::ISslService", ssl_service)
    ∷ ("nn::visrv::sf::IApplicationRootService", application_root_service)
    ∷ ("nn::visrv::sf::IManagerDisplayService", manager_display_service)
    ∷ ("nn::visrv::sf::ISystemDisplayService", system_display_service)
    ∷ []

unfoldable pub find_table : String → List (String × Table) → Option Table
find_table class [] = none
find_table class ((name, table) ∷ rest) =
    if name_eq (codes class) (codes name) then some table else find_table class rest

unfoldable pub commands_of : String → Option Table
unfolding find_table
commands_of class = find_table class tables
